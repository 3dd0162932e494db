-- ===== src/Net.antt =====
-- What src/session takes from mio, BoringSSL and the operating system: sockets, TLS streams and the
-- poll, with the results of each call. None of it is the program's code, so it is a parameter.
use rpc_perf.Base.{ℕ, ◌≤◌, ◌≡◌, Option, length}
use rpc_perf.Base.Bytes.{Bytes}
use rpc_perf.Base.Outcome.{Io, ok}

-- `mio::Interest`, as far as the program builds it.
pub data Interest : Type 0 where
  readable writable both : Interest

-- The result of `MidHandshakeSslStream::handshake`.
pub data Handshake (Tls Mid : Type 0) : Type 0 where
  established : Tls → Handshake Tls Mid
  blocked : Mid → Handshake Tls Mid
  failed : Handshake Tls Mid

-- A call on a handle returns its result and the handle afterwards. A read is told how many bytes
-- fit, and returns those that it has put there.
pub record Net : Type 1 where
  pub Tcp : Type 0
  pub Tls : Type 0
  pub Mid : Type 0
  pub Addr : Type 0
  pub SslSession : Type 0
  pub Poll : Type 0
  pub tcp_read : Tcp → ℕ → Io Bytes × Tcp
  pub tcp_write : Tcp → Bytes → Io ℕ × Tcp
  pub tcp_shutdown : Tcp → Tcp
  pub tcp_peer_addr : Tcp → Io Addr
  pub tls_read : Tls → ℕ → Io Bytes × Tls
  pub tls_write : Tls → Bytes → Io ℕ × Tls
  pub tls_shutdown : Tls → Tls
  pub tls_tcp : Tls → Tcp
  -- `ssl().session()`, then `to_der` and `from_der`
  pub tls_session : Tls → Option SslSession
  pub to_der : SslSession → Io Bytes
  pub from_der : Bytes → Io SslSession
  pub handshake : Mid → Handshake Tls Mid
  pub mid_tcp : Mid → Tcp
  pub mid_shutdown_tcp : Mid → Mid
  pub poll_register : Poll → Tcp → ℕ → Interest → Io (Unit {0}) × Poll
  pub poll_reregister : Poll → Tcp → ℕ → Interest → Io (Unit {0}) × Poll
  pub poll_deregister : Poll → Tcp → Io (Unit {0}) × Poll

-- What `std::io::Read` and `std::io::Write` promise: no call handles more bytes than it is given.
pub record Fits (net : Net) : Type 0 where
  pub tcp_read_fits :
      (t : net.Tcp) (n : ℕ) (xs : Bytes) → (net.tcp_read t n).0 ≡ ok xs → length xs ≤ n
  pub tls_read_fits :
      (t : net.Tls) (n : ℕ) (xs : Bytes) → (net.tls_read t n).0 ≡ ok xs → length xs ≤ n
  pub tcp_write_fits :
      (t : net.Tcp) (xs : Bytes) (n : ℕ) → (net.tcp_write t xs).0 ≡ ok n → n ≤ length xs
  pub tls_write_fits :
      (t : net.Tls) (xs : Bytes) (n : ℕ) → (net.tls_write t xs).0 ≡ ok n → n ≤ length xs
