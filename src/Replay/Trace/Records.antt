-- ===== src/Replay/Trace/Records.antt =====
-- src/replay.rs: the records of a binary trace against their layout, 20 bytes with the low byte of
-- each number first: a timestamp, the number of the key, the lengths of the key (10 bits) and of the
-- value (22 bits), and the operation (8 bits) with the time to live (24 bits).
use rpc_perf.Base.{
  ℕ, zero, suc, ◌+◌, ◌*◌, ◌/◌, ◌%◌, ◌^◌, ◌<◌, ◌≡◌, ◌≢◌, refl, sym, ◌∙◌, ap, inl, inr, arith,
  Option-cases, true, false, lt→ltb, List, [], ◌∷◌, ◌++◌, append_assoc, append-nil, Option, none,
  some, ltb, length, length-append, take, drop, take-append_eq, drop-append_eq,
}
use mathlib.Core.Path.{ap₂}
use rpc_perf.Base.Bytes.{Bytes}
use rpc_perf.Base.Decimal.{zero_padded}
use rpc_perf.Replay.{Request}
use rpc_perf.Replay.Trace.{from_le_bytes, request_of, record_request, GeneratorStats, queue, binary}

-- The `n` bytes of a number, the low byte first.
pub to_le_bytes : ℕ → ℕ → Bytes
to_le_bytes zero k = []
to_le_bytes (suc n) k = (k % 256) ∷ to_le_bytes n (k / 256)

length-to_le_bytes : (n k : ℕ) → length (to_le_bytes n k) ≡ n
unfolding to_le_bytes
length-to_le_bytes zero k = refl
length-to_le_bytes (suc n) k = ap suc (length-to_le_bytes n (k / 256))

from_le_bytes-to_le_bytes : (n k : ℕ) → k < 256 ^ n → from_le_bytes (to_le_bytes n k) ≡ k
unfolding from_le_bytes to_le_bytes
from_le_bytes-to_le_bytes zero k h = ground arith
from_le_bytes-to_le_bytes (suc n) k h =
    omega (arith, from_le_bytes-to_le_bytes n (k / 256) (ground (arith, pow256 n)))
  where
    pow256 : (n : ℕ) → 256 ^ suc n ≡ 256 * 256 ^ n
    pow256 n = ground arith

-- The operations of a trace: those that are replayed, and each other one, by its number.
pub data Operation : Type 0 where
  get gets set add replace delete : Operation
  skipped : ℕ → Operation

pub number : Operation → ℕ
number Operation.get = 1
number Operation.gets = 2
number Operation.set = 3
number Operation.add = 4
number Operation.replace = 6
number Operation.delete = 9
number (skipped n) = n

-- An operation that is skipped has none of the numbers of the others.
unfoldable pub IsOperation : Operation → Type 0
IsOperation (skipped n) = (n < 2 ^ 8) × (n ≢ 1) × (n ≢ 2) × (n ≢ 3) × (n ≢ 4) × (n ≢ 6) × (n ≢ 9)
IsOperation _ = Unit {0}

number-bound : (o : Operation) → IsOperation o → number o < 2 ^ 8
unfolding number IsOperation
number-bound (skipped n) h = h.0
number-bound _ h = omega arith

pub record Entry : Type 0 where
  pub timestamp : ℕ
  pub key : ℕ
  pub key_length : ℕ
  pub value_length : ℕ
  pub operation : Operation
  pub ttl : ℕ

pub record IsEntry (e : Entry) : Type 0 where
  pub timestamp : e.timestamp < 2 ^ 32
  pub key : e.key < 2 ^ 64
  pub key_length : e.key_length < 2 ^ 10
  pub value_length : e.value_length < 2 ^ 22
  pub operation : IsOperation e.operation
  pub ttl : e.ttl < 2 ^ 24

pub layout : Entry → Bytes
unfolding to_le_bytes
layout e =
    to_le_bytes 4 e.timestamp
    ++ (to_le_bytes 8 e.key
        ++ (to_le_bytes 4 (e.key_length * 2 ^ 22 + e.value_length)
            ++ to_le_bytes 4 (number e.operation * 2 ^ 24 + e.ttl)))

-- The request that an entry stands for, if its operation is one of those that are replayed. The key
-- is the number of the key, with zeros in front up to its length.
pub request_for : Operation → Bytes → ℕ → ℕ → Option Request
request_for Operation.get key vlen ttl = some (Request.get key)
request_for Operation.gets key vlen ttl = some (Request.gets key)
request_for Operation.set key vlen ttl = some (Request.set key vlen ttl)
request_for Operation.add key vlen ttl = some (Request.add key vlen ttl)
request_for Operation.replace key vlen ttl = some (Request.replace key vlen ttl)
request_for Operation.delete key vlen ttl = some (Request.delete key)
request_for (skipped n) key vlen ttl = none

pub meaning : Entry → Option Request
meaning e = request_for e.operation (zero_padded e.key e.key_length) e.value_length e.ttl

-- The code's numbers are those of the operations.
request_of-number :
    (o : Operation) (key : Bytes) (vlen ttl : ℕ)
    → IsOperation o
    → request_of (number o) key vlen ttl ≡ request_for o key vlen ttl
unfolding request_of number request_for IsOperation
request_of-number (skipped n) key vlen ttl h = ground arith
request_of-number _ key vlen ttl h = refl

field :
    (n m k : ℕ) (front back : Bytes)
    → length front ≡ m
    → k < 256 ^ n
    → from_le_bytes (take n (drop m (front ++ (to_le_bytes n k ++ back)))) ≡ k
field n m k front back h b =
    ap (λ t. from_le_bytes (take n t)) (drop-append_eq m front _ (sym h))
    ∙ ap from_le_bytes (take-append_eq n (to_le_bytes n k) back (sym (length-to_le_bytes n k)))
    ∙ from_le_bytes-to_le_bytes n k b

record_request-layout :
    (e : Entry) → IsEntry e → record_request (layout e) ≡ (e.timestamp, meaning e)
unfolding record_request layout meaning
record_request-layout e b =
    let kv = e.key_length * 2 ^ 22 + e.value_length in
    let ot = number e.operation * 2 ^ 24 + e.ttl in
    let k : kv / 2 ^ 22 ≡ e.key_length = omega (arith, b.value_length) in
    let v : kv % 2 ^ 22 ≡ e.value_length = omega (arith, b.value_length) in
    let o : ot / 2 ^ 24 ≡ number e.operation = omega (arith, b.ttl) in
    let l : ot % 2 ^ 24 ≡ e.ttl = omega (arith, b.ttl) in
    rw (ts, key, lengths, op, record_request)
      (ap (λ r. (e.timestamp, r))
        (ap₂ (λ x y. request_of (ot / 2 ^ 24) (zero_padded e.key x) y (ot % 2 ^ 24)) k v
          ∙ ap₂ (λ x y. request_of x (zero_padded e.key e.key_length) e.value_length y) o l
          ∙ request_of-number e.operation _ e.value_length e.ttl b.operation))
  where
    A : Bytes
    A = to_le_bytes 4 e.timestamp

    B : Bytes
    B = to_le_bytes 8 e.key

    C : Bytes
    C = to_le_bytes 4 (e.key_length * 2 ^ 22 + e.value_length)

    D : Bytes
    D = to_le_bytes 4 (number e.operation * 2 ^ 24 + e.ttl)

    a : length A ≡ 4
    a = length-to_le_bytes 4 e.timestamp

    ab : length (A ++ B) ≡ 12
    ab = length-append A B ∙ ap₂ (λ x y. x + y) a (length-to_le_bytes 8 e.key)

    ts : from_le_bytes (take 4 (layout e)) ≡ e.timestamp
    ts = field 4 0 e.timestamp [] (B ++ (C ++ D)) refl (omega (arith, b.timestamp))

    key : from_le_bytes (take 8 (drop 4 (layout e))) ≡ e.key
    key = field 8 4 e.key A (C ++ D) a (omega (arith, b.key))

    lengths : from_le_bytes (take 4 (drop 12 (layout e))) ≡ e.key_length * 2 ^ 22 + e.value_length
    lengths =
        ap (λ t. from_le_bytes (take 4 (drop 12 t))) (sym (append_assoc A B (C ++ D)))
        ∙ field 4 12 (e.key_length * 2 ^ 22 + e.value_length) (A ++ B) D ab
            (omega (arith, b.key_length, b.value_length))

    op : from_le_bytes (take 4 (drop 16 (layout e))) ≡ number e.operation * 2 ^ 24 + e.ttl
    op =
        ap (λ t. from_le_bytes (take 4 (drop 16 t)))
          (sym (append_assoc A B (C ++ D))
            ∙ sym (append_assoc (A ++ B) C D)
            ∙ ap (λ t. ((A ++ B) ++ C) ++ t) (sym (append-nil D)))
        ∙ field 4 16 (number e.operation * 2 ^ 24 + e.ttl) ((A ++ B) ++ C) []
            (length-append (A ++ B) C
              ∙ ap₂ (λ x y. x + y) ab
                  (length-to_le_bytes 4 (e.key_length * 2 ^ 22 + e.value_length)))
            (omega (arith, number-bound e.operation b.operation, b.ttl))

length-layout : (e : Entry) → length (layout e) ≡ 20
unfolding layout
length-layout e = omega (
  arith,
  length-append (to_le_bytes 4 e.timestamp) (
      to_le_bytes 8 e.key
      ++ (to_le_bytes 4 (e.key_length * 2 ^ 22 + e.value_length)
          ++ to_le_bytes 4 (number e.operation * 2 ^ 24 + e.ttl))),
  length-append (to_le_bytes 8 e.key) (
      to_le_bytes 4 (e.key_length * 2 ^ 22 + e.value_length)
      ++ to_le_bytes 4 (number e.operation * 2 ^ 24 + e.ttl)),
  length-append (to_le_bytes 4 (e.key_length * 2 ^ 22 + e.value_length))
      (to_le_bytes 4 (number e.operation * 2 ^ 24 + e.ttl)),
  length-to_le_bytes 4 e.timestamp,
  length-to_le_bytes 8 e.key,
  length-to_le_bytes 4 (e.key_length * 2 ^ 22 + e.value_length),
  length-to_le_bytes 4 (number e.operation * 2 ^ 24 + e.ttl),
)

unfoldable pub AllEntry : List Entry → Type 0
AllEntry [] = Unit {0}
AllEntry (e ∷ es) = IsEntry e × AllEntry es

-- A trace: its records, and fewer than 20 bytes after them.
pub trace : List Entry → Bytes → Bytes
trace [] tail = tail
trace (e ∷ es) tail = layout e ++ trace es tail

-- The requests of a trace in their order, each with its timestamp.
pub wanted : List Entry → List (ℕ × Request)
wanted [] = []
wanted (e ∷ es) = elim (meaning e) [
  | some request ↦ (e.timestamp, request) ∷ wanted es
  | none ↦ wanted es
]

-- The work that is queued is what the trace asks for, and each record is counted once.
pub record Replays (es : List Entry) (out : List (ℕ × Request) × GeneratorStats) : Type 0 where
  pub work : out.0 ≡ wanted es
  pub sent : out.1.sent ≡ length (wanted es)
  pub all : out.1.sent + out.1.skip ≡ length es

queue-Replays :
    (e : Entry) (es : List Entry) (out : List (ℕ × Request) × GeneratorStats)
    → Replays es out
    → Replays (e ∷ es) (queue (e.timestamp, meaning e) out)
unfolding queue wanted
queue-Replays e es out r = elim (Option-cases (meaning e)) [
  | inl n ↦
      let want : wanted (e ∷ es) ≡ wanted es = rw (n, wanted) refl in
      rw (n, queue)
        (record {
          work = r.work ∙ sym want;
          sent = r.sent ∙ ap length (sym want);
          all = omega (arith, r.all);
        })
  | inr (q, s) ↦
      let want : wanted (e ∷ es) ≡ (e.timestamp, q) ∷ wanted es = rw (s, wanted) refl in
      rw (s, queue)
        (record {
          work = ap (λ w. (e.timestamp, q) ∷ w) r.work ∙ sym want;
          sent = omega (arith, r.sent, ap length want);
          all = omega (arith, r.all);
        })
]

-- From the layout of any list of trace entries within the bounds of their fields, and fewer than
-- 20 bytes after it, the generator queues exactly the requests of the entries whose operation is
-- replayed (get, gets, set, add, replace and delete, which have the numbers 1, 2, 3, 4, 6 and 9),
-- in their order and with their timestamps, counts these as sent and each other entry as skipped,
-- when the fuel exceeds the number of entries.
pub binary-Replays :
    (f : ℕ) (es : List Entry) (tail : Bytes)
    → AllEntry es
    → length tail < 20
    → length es < f
    → Replays es (binary f (trace es tail))
unfolding binary trace AllEntry wanted
binary-Replays zero es tail b t h = absurd (omega arith)
binary-Replays (suc f) [] tail b t h =
    let short : ltb (length tail) 20 ≡ true = lt→ltb _ 20 t in
    rw (short, binary) (record { work = refl; sent = refl; all = refl })
binary-Replays (suc f) (e ∷ es) tail (b, bs) t h =
    let long : ltb (length (layout e ++ trace es tail)) 20 ≡ false =
      ground (arith, length-append (layout e) (trace es tail), length-layout e) in
    let front : take 20 (layout e ++ trace es tail) ≡ layout e =
      take-append_eq 20 (layout e) (trace es tail) (sym (length-layout e)) in
    let back : drop 20 (layout e ++ trace es tail) ≡ trace es tail =
      drop-append_eq 20 (layout e) (trace es tail) (sym (length-layout e)) in
    rw (long, front, back, record_request-layout e b, binary)
      (queue-Replays e es (binary f (trace es tail)) (binary-Replays f es tail bs t (omega arith)))
