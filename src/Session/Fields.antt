-- ===== src/Session/Fields.antt =====
-- src/session/mod.rs: the fields that the workers read and set.
use rpc_perf.Base.{ℕ, Bool, Option}
use rpc_perf.Base.Outcome.{Io}
use rpc_perf.Net.{Net}
use rpc_perf.Stream
use rpc_perf.Session.{Session}

module _ {net : Net} where
  unfoldable pub set_token : Session net → ℕ → Session net
  set_token s token = record s { token = token }

  unfoldable pub set_timestamp : Session net → ℕ → Session net
  set_timestamp s timestamp = record s { timestamp = timestamp }

  unfoldable pub set_outstanding : Session net → ℕ → Session net
  set_outstanding s count = record s { outstanding = count }

  pub is_handshaking : Session net → Bool
  is_handshaking s = Stream.is_handshaking s.stream

  pub peer_addr : Session net → Io net.Addr
  peer_addr s = Stream.peer_addr s.stream

  pub ssl_session : Session net → Option net.SslSession
  ssl_session s = Stream.ssl_session s.stream
