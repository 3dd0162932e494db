-- ===== src/Replay/Trace/Ascii.antt =====
-- src/replay.rs: the generator on a trace of text lines, with fields between commas.
use rpc_perf.Base.{
  ℕ, ◌+◌, ◌%◌, ◌^◌, List, [], ◌∷◌, Option, none, some, ltb, if◌then◌else◌, get_elem?,
}
use rpc_perf.Base.Bytes.{Bytes, codes, bytes_eq}
use rpc_perf.Base.Decimal.{parse_usize}
use rpc_perf.Base.Text.{split_at}
use rpc_perf.Base.Outcome.{Outcome, ret, panic, check, ◌>>=◌}
use rpc_perf.Replay.{Request, gets, set, add, replace, delete}
use rpc_perf.Replay.Trace.{GeneratorStats, queue}

-- `expect`, and an index into a `Vec`.
expect : {A : Type 0} → Option A → Outcome A
expect none = panic
expect (some a) = ret a

verb_request : Bytes → Bytes → ℕ → ℕ → Option Request
verb_request verb key vlen ttl =
    if bytes_eq verb (codes "get")
    then some (Request.get key)
    else if bytes_eq verb (codes "gets")
    then some (gets key)
    else if bytes_eq verb (codes "set")
    then some (set key vlen ttl)
    else if bytes_eq verb (codes "add")
    then some (add key vlen ttl)
    else if bytes_eq verb (codes "replace")
    then some (replace key vlen ttl)
    else if bytes_eq verb (codes "delete")
    then some (delete key)
    else none

-- The body of the loop: a line with a field missing, or with a number that is none, is a panic. A
-- time to live is a `u32`.
line_request : Bytes → Outcome (ℕ × Option Request)
unfolding expect verb_request
line_request line = do
  let parts = split_at b',' line
  first ← expect (get_elem? parts 0)
  ts ← expect (parse_usize first)
  verb ← expect (get_elem? parts 5)
  key ← expect (get_elem? parts 1)
  third ← expect (get_elem? parts 3)
  vlen ← expect (parse_usize third)
  sixth ← expect (get_elem? parts 6)
  ttl ← expect (parse_usize sixth)
  check (ltb ttl (2 ^ 32)) (ret ((ts + 1) % 2 ^ 64, verb_request verb key vlen ttl))

abbrev pub ascii : List Bytes → Outcome (List (ℕ × Request) × GeneratorStats)
unfolding line_request
ascii [] = ret ([], record { sent = 0; skip = 0 })
ascii (line ∷ lines) = do r ← line_request line; rest ← ascii lines; ret (queue r rest)
