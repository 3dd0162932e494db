-- ===== src/Admin/Snapshot/Deltas.antt =====
-- src/admin.rs, `delta_count`: what it gives for consecutive pairs of snapshots adds up.
use rpc_perf.Base.{
  ℕ, ◌+◌, ◌-◌, ◌%◌, ◌^◌, ◌<◌, ◌≡◌, refl, inl, inr, arith, Bool-cases, List, [], ◌∷◌,
}
use rpc_perf.Base.Bytes.{Bytes, bytes_eq}
use rpc_perf.Admin.Snapshot.{
  Snapshot, Metric, counter, gauge, opaque, Entry, insert, get, collect, value_of, delta_count,
}

-- The values of a registry are of the type u64.
unfoldable pub AreWords : List Metric → Type 0
AreWords [] = Unit {0}
AreWords (counter name entry ∷ ms) = (entry.value < 2 ^ 64) × AreWords ms
AreWords (gauge name entry ∷ ms) = AreWords ms
AreWords (opaque ∷ ms) = AreWords ms

-- So are those of the entries of a map.
unfoldable pub Below : List (Bytes × Entry) → Type 0
Below [] = Unit {0}
Below ((name, entry) ∷ m) = (entry.value < 2 ^ 64) × Below m

insert-Below :
    (k : Bytes) (e : Entry) (m : List (Bytes × Entry))
    → e.value < 2 ^ 64
    → Below m
    → Below (insert k e m)
unfolding insert Below
insert-Below k e [] h b = (h, tt)
insert-Below k e ((j, w) ∷ m) h b = elim (Bool-cases (bytes_eq j k)) [
  | inl q ↦ rw q (h, b.1)
  | inr q ↦ rw q (b.0, insert-Below k e m h b.1)
]

pub collect-Below :
    (ms : List Metric) (counters gauges : List (Bytes × Entry))
    → AreWords ms
    → Below counters
    → Below (collect ms counters gauges).0
unfolding collect AreWords
collect-Below [] counters gauges w b = b
collect-Below (counter name entry ∷ ms) counters gauges w b =
    collect-Below ms (insert name entry counters) gauges w.1
      (insert-Below name entry counters w.0 b)
collect-Below (gauge name entry ∷ ms) counters gauges w b =
    collect-Below ms counters (insert name entry gauges) w b
collect-Below (opaque ∷ ms) counters gauges w b = collect-Below ms counters gauges w b

get-lt : (name : Bytes) (m : List (Bytes × Entry)) → Below m → value_of (get name m) < 2 ^ 64
unfolding get value_of Below
get-lt name [] b = omega arith
get-lt name ((j, w) ∷ m) b = elim (Bool-cases (bytes_eq j name)) [
  | inl q ↦ rw q b.0
  | inr q ↦ rw q (get-lt name m b.1)
]

chain :
    (t d a b c : ℕ)
    → a < 2 ^ 64
    → b < 2 ^ 64
    → t % 2 ^ 64 ≡ (b + 2 ^ 64 - a) % 2 ^ 64
    → d ≡ (c + 2 ^ 64 - b) % 2 ^ 64
    → (t + (d + 0)) % 2 ^ 64 ≡ (c + 2 ^ 64 - a) % 2 ^ 64
chain t d a b c ha hb h k = omega arith

-- What the windows before have counted, with what the next one counts.
pub delta_count-add :
    (s₀ s₁ s₂ : Snapshot) (name : Bytes) (t : ℕ)
    → Below s₀.counters
    → Below s₁.counters
    → t % 2 ^ 64 ≡ delta_count s₁ s₀ name
    → (t + (delta_count s₂ s₁ name + 0)) % 2 ^ 64 ≡ delta_count s₂ s₀ name
unfolding delta_count
delta_count-add s₀ s₁ s₂ name t b₀ b₁ h =
    chain t (delta_count s₂ s₁ name) _ _ _ (get-lt name s₀.counters b₀) (get-lt name s₁.counters b₁)
      h refl

pub delta_count_self : (s : Snapshot) (name : Bytes) → 0 ≡ delta_count s s name
unfolding delta_count
delta_count_self s name = omega arith
