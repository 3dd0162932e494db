-- ===== src/Replay.antt =====
-- src/replay.rs: the requests of a trace, as they are sent, and the parser of the responses.
pub mod Requests
pub mod Responses
pub mod Trace
pub mod Worker
use rpc_perf.Base.{ℕ, zero, suc, ◌+◌, Bool, List, Option, none, some, ◌++◌, ltb, if◌then◌else◌}
use rpc_perf.Base.Bytes.{Bytes, codes, position}
use rpc_perf.Base.Decimal.{to_decimal}
use rpc_perf.Metrics.{Metrics}
use rpc_perf.Net.{Net}
use rpc_perf.Rand.{Rand, sample_bytes}
use rpc_perf.Session.{Session, buffer}
use rpc_perf.Writer.{W, put, pure, ◌>>=◌, ◌>>◌}
use rpc_perf.Reply.{Decoded, accept, refuse, incomplete}
use rpc_perf.Codec.Memcache.{fixed, match_fixed}

-- A key; for those that store something also the length of the value and the time to live.
pub data Request : Type 0 where
  get gets : Bytes → Request
  set add replace : Bytes → ℕ → ℕ → Request
  delete : Bytes → Request

module _ (rand : Rand) (net : Net) where
  -- The bodies of `Set`, `Add` and `Replace`, which differ in the name of the command.
  pub store : Bytes → Bytes → ℕ → ℕ → rand.Rng → W net rand.Rng
  store name key vlen ttl rng = do
    let (value, rng') = sample_bytes rand vlen rng
    put (
        name
        ++ (key
            ++ (codes " 0 "
                ++ (to_decimal ttl ++ (codes " " ++ (to_decimal vlen ++ codes "\r\n"))))))
    put value
    put (codes "\r\n")
    pure rng'

  -- The `match` of `send_request`.
  pub write_request : Request → rand.Rng → Metrics → W net (rand.Rng × Metrics)
  unfolding store
  write_request (Request.get key) rng m = do
    put (codes "get " ++ (key ++ codes "\r\n"))
    pure (rng, record m { request_get = m.request_get + 1 })
  write_request (gets key) rng m = do
    put (codes "gets " ++ (key ++ codes "\r\n"))
    pure (rng, record m { request_get = m.request_get + 1 })
  write_request (set key vlen ttl) rng m = do
    rng' ← store (codes "set ") key vlen ttl rng
    pure (rng', m)
  write_request (add key vlen ttl) rng m = do
    rng' ← store (codes "add ") key vlen ttl rng
    pure (rng', m)
  write_request (replace key vlen ttl) rng m = do
    rng' ← store (codes "replace ") key vlen ttl rng
    pure (rng', m)
  write_request (delete key) rng m = do
    put (codes "delete " ++ (key ++ codes "\r\n"))
    pure (rng, m)

-- The response that ends with "END\r\n" at `response_end` is a hit unless it is nothing else.
pub end_response : {net : Net} → Session net → Metrics → ℕ → Decoded net
end_response s m response_end =
    accept s (if ltb 0 response_end then record m { response_hit = m.response_hit + 1 } else m)
      (response_end + 5)

-- The six fixed responses are those of src/codec/memcache.rs, in the same order.
pub decode : {net : Net} → Session net → Metrics → Decoded net
unfolding end_response
decode s m = elim (match_fixed fixed (buffer s)) [
  | some n ↦ accept s m n
  | none ↦ elim (position (codes "END\r\n") (buffer s)) [
    | some response_end ↦ end_response s m response_end
    | none ↦ refuse s m incomplete
  ]
]
