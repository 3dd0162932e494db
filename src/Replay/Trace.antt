-- ===== src/Replay/Trace.antt =====
-- src/replay.rs: the generator, which reads a trace and queues its requests. The trace is what the
-- zstd decoder yields; the controllers, which wait for the time of a request, are not modelled, and
-- each request is listed with the timestamp that its controller is given.
pub mod Records
pub mod Ascii
use rpc_perf.Base.{
  ℕ, zero, suc, ◌+◌, ◌*◌, ◌/◌, ◌%◌, ◌^◌, List, [], ◌∷◌, Option, none, some, ltb, ◌==◌,
  if◌then◌else◌, length, take, drop,
}
use rpc_perf.Base.Bytes.{Bytes}
use rpc_perf.Base.Decimal.{zero_padded}
use rpc_perf.Replay.{Request, get, gets, set, add, replace, delete}

-- `u32::from_le_bytes` and `u64::from_le_bytes`.
pub from_le_bytes : Bytes → ℕ
from_le_bytes [] = 0
from_le_bytes (b ∷ bytes) = b + 256 * from_le_bytes bytes

-- The operations of the binary format, by number.
pub request_of : ℕ → Bytes → ℕ → ℕ → Option Request
request_of op key vlen ttl =
    if op == 1
    then some (Request.get key)
    else if op == 2
    then some (gets key)
    else if op == 3
    then some (set key vlen ttl)
    else if op == 4
    then some (add key vlen ttl)
    else if op == 6
    then some (replace key vlen ttl)
    else if op == 9
    then some (delete key)
    else none

-- The body of the loop, for the 20 bytes of a record.
pub record_request : Bytes → ℕ × Option Request
unfolding from_le_bytes request_of
record_request tmp =
    let ts = from_le_bytes (take 4 tmp) in
    let keyid = from_le_bytes (take 8 (drop 4 tmp)) in
    let klen_vlen = from_le_bytes (take 4 (drop 12 tmp)) in
    let op_ttl = from_le_bytes (take 4 (drop 16 tmp)) in
    let op = op_ttl / 2 ^ 24 in
    let ttl = op_ttl % 2 ^ 24 in
    let klen = klen_vlen / 2 ^ 22 in
    let vlen = klen_vlen % 2 ^ 22 in (ts, request_of op (zero_padded keyid klen) vlen ttl)

pub record GeneratorStats : Type 0 where
  pub sent : ℕ
  pub skip : ℕ

-- What a record does: it is queued and counted as sent, or skipped.
pub queue :
    ℕ × Option Request → List (ℕ × Request) × GeneratorStats → List (ℕ × Request) × GeneratorStats
queue (ts, some request) (work, stats) =
    ((ts, request) ∷ work, record stats { sent = stats.sent + 1 })
queue (ts, none) (work, stats) = (work, record stats { skip = stats.skip + 1 })

-- The loop over `read_exact`, which ends when fewer than 20 bytes are left. `f` is fuel.
pub binary : ℕ → Bytes → List (ℕ × Request) × GeneratorStats
unfolding record_request queue
binary zero log = ([], record { sent = 0; skip = 0 })
binary (suc f) log =
    let rest = binary f (drop 20 log) in
    if ltb (length log) 20
    then ([], record { sent = 0; skip = 0 })
    else queue (record_request (take 20 log)) rest
