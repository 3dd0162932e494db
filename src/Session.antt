-- ===== src/Session.antt =====
-- src/session/mod.rs: a connection with its read and write buffers.
pub mod Ready
pub mod Fill
pub mod Flush
pub mod Fields
pub mod Identity
pub mod Calls
use rpc_perf.Base.{
  ℕ, zero, suc, ◌+◌, ◌-◌, min, Bool, true, false, ◌||◌, not, Option, none, some, [], ◌∷◌, ◌==◌,
  if◌then◌else◌, length, take,
}
use rpc_perf.Base.Bytes.{Bytes}
use rpc_perf.Base.Outcome.{
  Outcome, ret, panic, ◌>>=◌, Io, ok, err, ErrorKind, would_block, interrupted, not_connected,
  invalid_data, other, os,
}
use mathlib.Core.Option
use rpc_perf.Metrics.{Metrics}
use rpc_perf.Net.{Net, Interest, readable, writable, both}
use rpc_perf.Buffer.{Buffer}
use rpc_perf.Buffer
use rpc_perf.Stream.{Stream, StreamType}
use rpc_perf.Stream

-- A `Token` is its number, and an `Instant` its nanoseconds.
pub record Session (net : Net) : Type 0 where
  pub token : ℕ
  pub stream : Stream net
  pub read_buffer : Buffer
  pub write_buffer : Buffer
  pub min_capacity : ℕ
  pub max_capacity : ℕ
  pub is_connected : Bool
  pub interest : Interest
  pub timestamp : ℕ
  pub outstanding : ℕ

-- `==` of `Interest`.
pub same_interest : Interest → Interest → Bool
same_interest readable readable = true
same_interest writable writable = true
same_interest both both = true
same_interest _ _ = false

-- The end of `fill_buf`, when it returns `Ok`.
pub counted : Metrics → ℕ → Metrics
counted m total = record m { session_recv_byte = m.session_recv_byte + total }

module _ {net : Net} where
  pub new : Stream net → ℕ → ℕ → ℕ → Session net
  new stream min_capacity max_capacity now = record {
    token = 0;
    stream = stream;
    read_buffer = Buffer.with_capacity min_capacity;
    write_buffer = Buffer.with_capacity min_capacity;
    min_capacity = min_capacity;
    max_capacity = max_capacity;
    is_connected = false;
    interest = writable;
    timestamp = now;
    outstanding = 0;
  }

  pub plain_with_capacity : net.Tcp → ℕ → ℕ → ℕ → Session net
  unfolding new
  plain_with_capacity t = new (record { inner = some (StreamType.plain t) })

  pub tls_with_capacity : net.Tls → ℕ → ℕ → ℕ → Session net
  unfolding new
  tls_with_capacity t = new (record { inner = some (StreamType.tls t) })

  pub handshaking_with_capacity : net.Mid → ℕ → ℕ → ℕ → Session net
  unfolding new
  handshaking_with_capacity m = new (record { inner = some (StreamType.handshaking m) })

  pub connected : Session net → Session net
  connected s = if s.is_connected then s else record s { is_connected = true }

  pub is_connecting : Session net → Bool
  is_connecting s = not s.is_connected

  -- No reads are asked for while writes are pending, but for a handshake.
  pub readiness : Session net → Interest
  readiness s =
      if Stream.is_handshaking s.stream || Buffer.is_empty s.write_buffer then both else writable

  pub register : Session net → net.Poll → Io (Unit {0}) × net.Poll
  unfolding is_connecting readiness
  register s poll =
      Stream.register s.stream poll s.token (if is_connecting s then both else readiness s)

  pub deregister : Session net → net.Poll → Io (Unit {0}) × net.Poll
  deregister s poll = Stream.deregister s.stream poll

  -- The poll is asked only when the interest has changed.
  pub reregister : Session net → net.Poll → Io (Unit {0}) × Session net × net.Poll
  unfolding readiness same_interest
  reregister s poll =
      let interest = readiness s in
      let (result, poll') = Stream.reregister s.stream poll s.token interest in
      if same_interest interest s.interest
      then (ok tt, s, poll)
      else (result, record s { interest = interest }, poll')

  pub do_handshake : Session net → Io (Unit {0}) × Session net
  do_handshake s = let (r, st) = Stream.do_handshake s.stream in (r, record s { stream = st })

  pub close : Session net → Session net
  close s = record s { stream = Stream.close s.stream }

  pub read_pending : Session net → ℕ
  read_pending s = Buffer.len s.read_buffer

  pub write_pending : Session net → ℕ
  write_pending s = Buffer.len s.write_buffer

  -- `-` on ℕ is `saturating_sub`.
  pub write_capacity : Session net → ℕ
  unfolding write_pending
  write_capacity s = s.min_capacity - write_pending s

  pub buffer : Session net → Bytes
  buffer s = Buffer.borrow s.read_buffer

  pub consume : Session net → ℕ → Outcome (Session net)
  consume s amt = do b ← Buffer.consume s.read_buffer amt; ret (record s { read_buffer = b })

  -- `Write::write` takes the whole slice and returns its length.
  pub write : Session net → Bytes → Outcome (ℕ × Session net)
  write s src = do
    b ← Buffer.extend_from_slice (Buffer.reserve s.write_buffer (length src)) src
    ret (length src, record s { write_buffer = b })

  -- `Write::write_all`: nothing for an empty slice, and else one `write`, which takes all of it.
  pub write_all : Session net → Bytes → Outcome (Session net)
  unfolding write
  write_all s [] = ret s
  write_all s (x ∷ xs) = do (n, s') ← write s (x ∷ xs); ret s'

  -- Room to read into: a full buffer grows by `min_capacity`.
  pub make_room : Session net → Session net
  make_room s =
      if Buffer.available_capacity s.read_buffer == 0
      then record s { read_buffer = Buffer.reserve s.read_buffer s.min_capacity }
      else s

  -- The stream has put `bytes` into the slice that it was lent.
  pub received : Session net → Bytes → Session net
  received s bytes = record s {
    read_buffer = Buffer.increase_len (Buffer.fill s.read_buffer bytes) (length bytes);
  }

  -- What one pass of the loop does with the stream's answer; `rest` is the loop from there on.
  pub on_read :
      (Session net → Metrics → ℕ → Option (Io (Unit {0}) × Session net × Metrics))
      → Session net
      → Metrics
      → ℕ
      → Io Bytes
      → Option (Io (Unit {0}) × Session net × Metrics)
  unfolding received counted
  on_read rest s m total (ok []) = some (ok tt, s, counted m total)
  on_read rest s m total (ok (x ∷ xs)) = rest (received s (x ∷ xs)) m (total + length (x ∷ xs))
  on_read rest s m total (err would_block) =
      if total == 0 then some (err would_block, s, m) else some (ok tt, s, counted m total)
  on_read rest s m total (err e) =
      some (err e, s, record m { session_recv_ex = m.session_recv_ex + 1 })

  -- The loop of `fill_buf`, on fuel: `none` is running out.
  pub fill_loop : ℕ → Session net → Metrics → ℕ → Option (Io (Unit {0}) × Session net × Metrics)
  unfolding make_room on_read
  fill_loop zero s m total = none
  fill_loop (suc f) s m total =
      let roomy = make_room s in
      let (answer, st) = Stream.read roomy.stream (Buffer.available_capacity roomy.read_buffer) in
      let next = on_read (fill_loop f) (record roomy { stream = st }) m total answer in
      if Buffer.len s.read_buffer == s.max_capacity then some (err other, s, m) else next

  -- Each pass but the last takes at least a byte, and the buffer holds `max_capacity` at most.
  -- On `Ok` the caller is lent `buffer`.
  pub fill_buf : Session net → Metrics → Option (Io (Unit {0}) × Session net × Metrics)
  fill_buf s m = fill_loop (suc s.max_capacity) s (record m { session_recv = m.session_recv + 1 }) 0

  -- `Read::read` into a slice of `n` bytes, once the read buffer is not empty or was filled.
  take_read : ℕ → Io (Unit {0}) × Session net × Metrics → Outcome (Io Bytes × Session net × Metrics)
  unfolding buffer consume
  take_read n (err e, s, m) = ret (err e, s, m)
  take_read n (ok u, s, m) = do
    let bytes = min n (Buffer.len s.read_buffer)
    s' ← consume s bytes
    ret (ok (take bytes (buffer s)), s', m)

  -- `none` is fuel that ran out in `fill_buf`.
  pub read : Session net → Metrics → ℕ → Option (Outcome (Io Bytes × Session net × Metrics))
  unfolding take_read
  read s m n =
      if Buffer.is_empty s.read_buffer
      then Option.map (take_read n) (fill_buf s m)
      else some (take_read n (ok tt, s, m))

  -- What `flush` does with the stream's answer.
  pub on_write : Session net → Metrics → Io ℕ → Outcome (Io (Unit {0}) × Session net × Metrics)
  on_write s m (ok zero) = ret (ok tt, s, m)
  on_write s m (ok (suc n)) = do
    b ← Buffer.consume s.write_buffer (suc n)
    ret (
      ok tt,
      record s { write_buffer = b },
      record m { session_send_byte = m.session_send_byte + suc n },
    )
  on_write s m (err e) = ret (err e, s, record m { session_send_ex = m.session_send_ex + 1 })

  pub flush : Session net → Metrics → Outcome (Io (Unit {0}) × Session net × Metrics)
  unfolding on_write
  flush s m =
      let (answer, st) = Stream.write s.stream (Buffer.borrow s.write_buffer) in
      on_write (record s { stream = st }) (record m { session_send = m.session_send + 1 }) answer
