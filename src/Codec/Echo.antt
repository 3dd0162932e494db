-- ===== src/Codec/Echo.antt =====
-- src/codec/echo.rs. The checksum is that of the crate `crc`: a parameter, from bytes to a `u32`.
pub mod Requests
pub mod Responses
use rpc_perf.Base.{
  ℕ, ◌+◌, ◌-◌, Option, none, some, List, ◌==◌, ltb, if◌then◌else◌, take, drop, append-nil,
}
use rpc_perf.Base.Bytes.{Bytes, crlf, bytes_eq, position}
use rpc_perf.Base.BigEndian.{be32}
use rpc_perf.Metrics.{Metrics}
use rpc_perf.Net.{Net}
use rpc_perf.Rand.{Rand, sample_bytes}
use rpc_perf.Keyspace.{Keyspace, Config, choose_keyspace}
use rpc_perf.Session.{Session, buffer}
use rpc_perf.Writer.{W, put, pure, lift, ◌>>=◌, ◌>>◌}
use rpc_perf.Reply.{Decoded, accept, refuse, incomplete, error, unknown}

module _ (crc : Bytes → ℕ) where
  pub echo : (net : Net) {rand : Rand} → rand.Rng → Keyspace rand → W net rand.Rng
  echo net {rand} rng keyspace = do
    let (value, rng') = sample_bytes rand keyspace.length rng
    put value
    put (be32 (crc value))
    put crlf
    pure rng'

  pub encode : (net : Net) {rand : Rand} → Config rand → rand.Rng → W net rand.Rng
  unfolding echo
  encode net config rng = do
    (keyspace, rng') ← lift (choose_keyspace config rng)
    echo net rng' keyspace

  -- The line before the CRLF at `response_end`: a message and its checksum.
  pub decode_line : {net : Net} → Session net → Metrics → ℕ → Decoded net
  decode_line s m response_end =
      let message = take (response_end - 4) (buffer s) in
      let crc_received = take 4 (drop (response_end - 4) (buffer s)) in
      if ltb response_end 5
      then refuse s m unknown
      else if bytes_eq (be32 (crc message)) crc_received
      then accept s m (response_end + 2)
      else refuse s (record m { response_ex = m.response_ex + 1 }) error

  pub decode : {net : Net} → Session net → Metrics → Decoded net
  unfolding decode_line
  decode s m = elim (position crlf (buffer s)) [
    | some response_end ↦ decode_line s m response_end
    | none ↦ refuse s m incomplete
  ]
