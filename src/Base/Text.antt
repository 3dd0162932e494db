-- ===== src/Base/Text.antt =====
-- `str::split` at a byte, `[String]::join`, and `format!("{}", n)` of an `i64`.
use Prim.Native.Nat.{ℕ, ◌-◌, ◌^◌}
use mathlib.Core.Path.{◌≡◌, refl, ap, ◌∙◌}
use mathlib.Core.Logic.{inl, inr}
use mathlib.Core.List.{List, [], ◌∷◌, ◌++◌, map}
use rpc_perf.Base.Tests.{ltb, ◌==◌, Bool-cases, if◌then◌else◌}
use rpc_perf.Base.Bytes.{Bytes}
use rpc_perf.Base.Decimal.{to_decimal}

-- An `i64` is held by its bits.
unfoldable pub signed : ℕ → Bytes
signed n = if ltb n (2 ^ 63) then to_decimal n else b'-' ∷ to_decimal (2 ^ 64 - n)

onto_first : ℕ → List Bytes → List Bytes
onto_first c [] = (c ∷ []) ∷ []
onto_first c (part ∷ parts) = (c ∷ part) ∷ parts

-- There is always a first part.
unfoldable pub split_at : ℕ → Bytes → List Bytes
unfolding onto_first
split_at sep [] = [] ∷ []
split_at sep (c ∷ s) =
    let parts = split_at sep s in if c == sep then [] ∷ parts else onto_first c parts

unfoldable pub join : Bytes → List Bytes → Bytes
join sep [] = []
join sep (x ∷ []) = x
join sep (x ∷ y ∷ ys) = x ++ (sep ++ join sep (y ∷ ys))

-- One byte by another.
unfoldable pub replace : ℕ → ℕ → Bytes → Bytes
replace old fresh = map (λ (c : ℕ). if c == old then fresh else c)

join-onto_first :
    (sep : Bytes) (c : ℕ) (part : Bytes) (parts : List Bytes)
    → join sep (onto_first c (part ∷ parts)) ≡ c ∷ join sep (part ∷ parts)
unfolding join onto_first
join-onto_first sep c part [] = refl
join-onto_first sep c part (next ∷ parts) = refl

-- The parts of a split are never none.
data Filled : List Bytes → Type 0 where
  filled : (part : Bytes) (parts : List Bytes) → Filled (part ∷ parts)

split_at-Filled : (sep : ℕ) (s : Bytes) → Filled (split_at sep s)
unfolding split_at onto_first
split_at-Filled sep [] = filled [] []
split_at-Filled sep (c ∷ s) = elim (Bool-cases (c == sep)) [
  | inl e ↦ rw e (filled [] (split_at sep s))
  | inr e ↦ rw e (go (split_at sep s) (split_at-Filled sep s))
]
  where
    go : (parts : List Bytes) → Filled parts → Filled (onto_first c parts)
    go parts (filled part rest) = filled (c ∷ part) rest

join_fresh :
    (sep : Bytes) (parts : List Bytes)
    → Filled parts
    → join sep ([] ∷ parts) ≡ sep ++ join sep parts
unfolding join
join_fresh sep parts (filled part rest) = refl

join_onto :
    (sep : Bytes) (c : ℕ) (parts : List Bytes)
    → Filled parts
    → join sep (onto_first c parts) ≡ c ∷ join sep parts
join_onto sep c parts (filled part rest) = join-onto_first sep c part rest

-- To split at a byte and to join with another is to replace the one by the other.
pub join-split_at :
    (old fresh : ℕ) (s : Bytes) → join (fresh ∷ []) (split_at old s) ≡ replace old fresh s
unfolding split_at replace
join-split_at old fresh [] = (unfold join in refl)
join-split_at old fresh (c ∷ s) = elim (Bool-cases (c == old)) [
  | inl e ↦ rw e (
      join_fresh (fresh ∷ []) (split_at old s) (split_at-Filled old s)
      ∙ ap (◌∷◌ fresh) (join-split_at old fresh s))
  | inr e ↦ rw e (
      join_onto (fresh ∷ []) c (split_at old s) (split_at-Filled old s)
      ∙ ap (◌∷◌ c) (join-split_at old fresh s))
]
