-- ===== src/Stream.antt =====
-- src/session/stream.rs and tcp_stream.rs: a plain, a negotiated or a handshaking connection.
pub mod States
pub mod Handshakes
use rpc_perf.Base.{ℕ, ◌≡◌, Bool, true, false, Option, none, some}
use rpc_perf.Base.Bytes.{Bytes}
use rpc_perf.Base.Outcome.{Io, ok, err, ErrorKind, would_block, not_connected, other}
use rpc_perf.Net.{Net, Interest, Handshake, established, blocked, failed}

pub data StreamType (net : Net) : Type 0 where
  plain : net.Tcp → StreamType net
  tls : net.Tls → StreamType net
  handshaking : net.Mid → StreamType net

pub record Stream (net : Net) : Type 0 where
  pub inner : Option (StreamType net)

-- A session that does not survive the round trip through DER is not kept.
reload : (net : Net) → Io Bytes → Option net.SslSession
reload net (ok der) = elim (net.from_der der) [ ok session ↦ some session | err e ↦ none ]
reload net (err e) = none

tls_ticket : (net : Net) → Option net.SslSession → Option net.SslSession
unfolding reload
tls_ticket net (some session) = reload net (net.to_der session)
tls_ticket net none = none

-- The new `inner`, with the result, of one attempt at the handshake.
after_handshake : (net : Net) → Handshake net.Tls net.Mid → Io (Unit {0}) × Stream net
after_handshake net (established t) = (ok tt, record { inner = some (tls t) })
after_handshake net (blocked m) = (err would_block, record { inner = some (handshaking m) })
after_handshake net failed = (err other, record { inner = none })

module _ {net : Net} where
  pub is_handshaking : Stream net → Bool
  is_handshaking s = elim s.inner [ some (handshaking m) ↦ true | _ ↦ false ]

  -- `take` empties `inner` before the match, so a stream that is not handshaking is dropped.
  handshake_inner : Option (StreamType net) → Io (Unit {0}) × Stream net
  handshake_inner (some (handshaking m)) = after_handshake net (net.handshake m)
  handshake_inner (some (plain t)) = (err other, record { inner = none })
  handshake_inner (some (tls t)) = (err other, record { inner = none })
  handshake_inner none = (err other, record { inner = none })

  pub do_handshake : Stream net → Io (Unit {0}) × Stream net
  unfolding handshake_inner after_handshake
  do_handshake s = handshake_inner s.inner

  close_type : StreamType net → StreamType net
  close_type (plain t) = plain (net.tcp_shutdown t)
  close_type (tls t) = tls (net.tls_shutdown t)
  close_type (handshaking m) = handshaking (net.mid_shutdown_tcp m)

  pub close : Stream net → Stream net
  unfolding close_type
  close s = record { inner = elim s.inner [ some t ↦ some (close_type t) | none ↦ none ] }

  -- The socket under a stream, by `get_ref` or `get_mut`.
  pub socket : StreamType net → net.Tcp
  socket (plain t) = t
  socket (tls t) = net.tls_tcp t
  socket (handshaking m) = net.mid_tcp m

  pub peer_addr : Stream net → Io net.Addr
  unfolding socket
  peer_addr s = elim s.inner [ some t ↦ net.tcp_peer_addr (socket t) | none ↦ err not_connected ]

  pub ssl_session : Stream net → Option net.SslSession
  unfolding tls_ticket
  ssl_session s = elim s.inner [ some (tls t) ↦ tls_ticket net (net.tls_session t) | _ ↦ none ]

  read_inner : Option (StreamType net) → ℕ → Io Bytes × Stream net
  read_inner (some (plain t)) n =
      let (r, t') = net.tcp_read t n in (r, record { inner = some (plain t') })
  read_inner (some (tls t)) n =
      let (r, t') = net.tls_read t n in (r, record { inner = some (tls t') })
  read_inner (some (handshaking m)) n = (err would_block, record { inner = some (handshaking m) })
  read_inner none n = (err not_connected, record { inner = none })

  -- `Read::read` into a slice of `n` bytes.
  pub read : Stream net → ℕ → Io Bytes × Stream net
  unfolding read_inner
  read s n = read_inner s.inner n

  write_inner : Option (StreamType net) → Bytes → Io ℕ × Stream net
  write_inner (some (plain t)) xs =
      let (r, t') = net.tcp_write t xs in (r, record { inner = some (plain t') })
  write_inner (some (tls t)) xs =
      let (r, t') = net.tls_write t xs in (r, record { inner = some (tls t') })
  write_inner (some (handshaking m)) xs = (err would_block, record { inner = some (handshaking m) })
  write_inner none xs = (err not_connected, record { inner = none })

  pub write : Stream net → Bytes → Io ℕ × Stream net
  unfolding write_inner
  write s xs = write_inner s.inner xs

  pub register : Stream net → net.Poll → ℕ → Interest → Io (Unit {0}) × net.Poll
  unfolding socket
  register s poll token interest = elim s.inner [
    | some t ↦ net.poll_register poll (socket t) token interest
    | none ↦ (err not_connected, poll)
  ]

  pub reregister : Stream net → net.Poll → ℕ → Interest → Io (Unit {0}) × net.Poll
  unfolding socket
  reregister s poll token interest = elim s.inner [
    | some t ↦ net.poll_reregister poll (socket t) token interest
    | none ↦ (err not_connected, poll)
  ]

  pub deregister : Stream net → net.Poll → Io (Unit {0}) × net.Poll
  unfolding socket
  deregister s poll = elim s.inner [
    | some t ↦ net.poll_deregister poll (socket t)
    | none ↦ (err not_connected, poll)
  ]
