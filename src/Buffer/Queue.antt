-- ===== src/Buffer/Queue.antt =====
-- src/session/buffer.rs against what it stands for: a queue of bytes.
use rpc_perf.Base.{
  ℕ, ◌+◌, ◌^◌, ◌≤◌, ◌<◌, ◌≡◌, refl, ap, ◌∙◌, List, [], ◌∷◌, ◌++◌, arith, length, drop,
  length-append, length-drop,
}
use rpc_perf.Base.Bytes.{Bytes}
use rpc_perf.Base.Outcome.{Outcome, ret, ◌>>=◌}
use rpc_perf.Buffer.{Buffer, extend_from_slice, consume, borrow}
use rpc_perf.Buffer.Grow.{IsValid, extend_from_slice_lem}
use rpc_perf.Buffer.Shrink.{consume_lem}

-- One call of a session on its buffer.
pub data Op : Type 0 where
  extends : Bytes → Op
  consumes : ℕ → Op

pub step : Buffer → Op → Outcome Buffer
step b (extends other) = extend_from_slice b other
step b (consumes bytes) = consume b bytes

pub run : Buffer → List Op → Outcome Buffer
unfolding step
run b [] = ret b
run b (op ∷ ops) = do b' ← step b op; run b' ops

-- The queue: bytes go in at the end and out at the front.
pub queue_step : Bytes → Op → Bytes
queue_step q (extends other) = q ++ other
queue_step q (consumes bytes) = drop bytes q

pub queue_run : Bytes → List Op → Bytes
unfolding queue_step
queue_run q [] = q
queue_run q (op ∷ ops) = queue_run (queue_step q op) ops

-- How many bytes the calls put in; each count is a `usize`.
abbrev pub total : List Op → ℕ
total [] = 0
total (extends other ∷ ops) = length other + total ops
total (consumes bytes ∷ ops) = total ops

abbrev pub AreWords : List Op → Type 0
AreWords [] = Unit {0}
AreWords (extends other ∷ ops) = AreWords ops
AreWords (consumes bytes ∷ ops) = (bytes < 2 ^ 64) × AreWords ops

-- A buffer that stands for the queue `q`.
pub record Holds (q : Bytes) (b : Buffer) : Type 0 where
  pub valid : IsValid b
  pub content : borrow b ≡ q

-- Any sequence of extend_from_slice and consume calls on a valid buffer that holds the queue q,
-- with at most 2^62 bytes put in and each count a usize, runs without a panic and leaves a valid
-- buffer that holds what the same calls leave in the queue: bytes are appended at the end and
-- dropped from the front.
pub run-Holds :
    (ops : List Op) (b : Buffer) (q : Bytes)
    → Holds q b
    → length q + total ops ≤ 2 ^ 62
    → AreWords ops
    → (b' : Buffer) × (run b ops ≡ ret b') × Holds (queue_run q ops) b'
unfolding run queue_run
run-Holds [] b q h small words = (b, refl, h)
run-Holds (extends other ∷ ops) b q h small words =
    let (b', e, a) = extend_from_slice_lem b other h.valid (omega (arith, ap length h.content)) in
    let next : Holds (q ++ other) b' = record {
      valid = a.valid;
      content = a.content ∙ ap (λ xs. xs ++ other) h.content;
    } in
    let (b'', r, done) =
      run-Holds ops b' (q ++ other) next (omega (arith, length-append q other)) words in
    (b'', rw (e, run) r, done)
run-Holds (consumes bytes ∷ ops) b q h small words =
    let (b', e, c) = consume_lem b bytes h.valid words.0 in
    let next : Holds (drop bytes q) b' = record {
      valid = c.valid;
      content = c.content ∙ ap (drop bytes) h.content;
    } in
    let (b'', r, done) =
      run-Holds ops b' (drop bytes q) next (omega (arith, length-drop bytes q)) words.1 in
    (b'', rw (e, run) r, done)
