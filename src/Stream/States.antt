-- ===== src/Stream/States.antt =====
-- src/session/stream.rs: no call of a stream handles more bytes than it is given.
use rpc_perf.Base.{ℕ, ◌≤◌, ◌≡◌, Option, none, some, length}
use rpc_perf.Base.Bytes.{Bytes}
use rpc_perf.Base.Outcome.{ok}
use rpc_perf.Net.{Net, Fits}
use rpc_perf.Stream.{
  Stream, StreamType, plain, tls, handshaking, read, read_inner, write, write_inner,
}

module _ {net : Net} where
  read_inner-fits :
      Fits net
      → (i : Option (StreamType net)) (n : ℕ) (xs : Bytes) → (read_inner i n).0 ≡ ok xs
      → length xs ≤ n
  unfolding read_inner
  read_inner-fits f (some (plain t)) n xs e = f.tcp_read_fits t n xs e
  read_inner-fits f (some (tls t)) n xs e = f.tls_read_fits t n xs e
  read_inner-fits f (some (handshaking m)) n xs e = cc
  read_inner-fits f none n xs e = cc

  -- A read returns no more bytes than fit, whatever the stream is.
  pub read-fits :
      Fits net → (s : Stream net) (n : ℕ) (xs : Bytes) → (read s n).0 ≡ ok xs → length xs ≤ n
  unfolding read
  read-fits f s n xs e = read_inner-fits f s.inner n xs e

  write_inner-fits :
      Fits net
      → (i : Option (StreamType net)) (xs : Bytes) (n : ℕ) → (write_inner i xs).0 ≡ ok n
      → n ≤ length xs
  unfolding write_inner
  write_inner-fits f (some (plain t)) xs n e = f.tcp_write_fits t xs n e
  write_inner-fits f (some (tls t)) xs n e = f.tls_write_fits t xs n e
  write_inner-fits f (some (handshaking m)) xs n e = cc
  write_inner-fits f none xs n e = cc

  pub write-fits :
      Fits net → (s : Stream net) (xs : Bytes) (n : ℕ) → (write s xs).0 ≡ ok n → n ≤ length xs
  unfolding write
  write-fits f s xs n e = write_inner-fits f s.inner xs n e
