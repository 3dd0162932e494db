-- ===== src/Base/Sort.antt =====
-- `[String]::sort`: byte strings in their order, whatever order they came in.
use mathlib.Core.Path.{◌≡◌, refl, sym, ap, subst}
use mathlib.Core.Logic.{inl, inr}
use mathlib.Core.Bool.{Bool, true, false, ◌&&◌, ◌||◌}
use mathlib.Core.List.{List, [], ◌∷◌, foldr, Perm}
use mathlib.Core.List.Perm
use native.Mathlib.Omega.{arith}
use rpc_perf.Base.Tests.{ltb, ◌==◌, Bool-cases, if◌then◌else◌}
use rpc_perf.Base.Bytes.{Bytes}

-- `a <= b`.
pub bytes_le : Bytes → Bytes → Bool
bytes_le [] b = true
bytes_le (x ∷ a) [] = false
bytes_le (x ∷ a) (y ∷ b) = ltb x y || (x == y && bytes_le a b)

bytes_le_total : (a b : Bytes) → bytes_le a b ≡ false → bytes_le b a ≡ true
unfolding bytes_le
bytes_le_total [] b h = cc
bytes_le_total (x ∷ a) [] h = refl
bytes_le_total (x ∷ a) (y ∷ b) h = ground (arith, bytes_le_total a b)

bytes_le_antisymm : (a b : Bytes) → bytes_le a b ≡ true → bytes_le b a ≡ true → a ≡ b
unfolding bytes_le
bytes_le_antisymm [] [] h k = refl
bytes_le_antisymm [] (y ∷ b) h k = cc
bytes_le_antisymm (x ∷ a) [] h k = cc
bytes_le_antisymm (x ∷ a) (y ∷ b) h k = ground (arith, bytes_le_antisymm a b)

bytes_le_trans : (a b c : Bytes) → bytes_le a b ≡ true → bytes_le b c ≡ true → bytes_le a c ≡ true
unfolding bytes_le
bytes_le_trans [] b c h k = refl
bytes_le_trans (x ∷ a) [] c h k = cc
bytes_le_trans (x ∷ a) (y ∷ b) [] h k = cc
bytes_le_trans (x ∷ a) (y ∷ b) (z ∷ c) h k = ground (arith, bytes_le_trans a b c)

-- In front of the first that is not smaller.
insert : Bytes → List Bytes → List Bytes
insert x [] = x ∷ []
insert x (y ∷ ys) = let rest = insert x ys in if bytes_le x y then x ∷ y ∷ ys else y ∷ rest

unfoldable pub sort : List Bytes → List Bytes
unfolding insert bytes_le
sort xs = foldr insert [] xs

insert_comm_lt :
    (x y : Bytes) (l : List Bytes)
    → bytes_le x y ≡ true
    → bytes_le y x ≡ false
    → insert x (insert y l) ≡ insert y (insert x l)
unfolding insert
insert_comm_lt x y [] h k = rw (h, k) refl
insert_comm_lt x y (z ∷ l) h k = elim (Bool-cases (bytes_le y z)) [
  | inl yz ↦ rw (yz, h, bytes_le_trans x y z h yz, k) (rw yz refl)
  | inr yz ↦ elim (Bool-cases (bytes_le x z)) [
    | inl xz ↦ rw (yz, xz, k) (rw yz refl)
    | inr xz ↦ rw (yz, xz, yz) (ap (◌∷◌ z) (insert_comm_lt x y l h k))
  ]
]

insert_comm : (x y : Bytes) (l : List Bytes) → insert x (insert y l) ≡ insert y (insert x l)
insert_comm x y l = elim (Bool-cases (bytes_le x y)) [
  | inl h ↦ elim (Bool-cases (bytes_le y x)) [
    | inl k ↦
        subst (λ w. insert x (insert w l) ≡ insert w (insert x l)) (bytes_le_antisymm x y h k) refl
    | inr k ↦ insert_comm_lt x y l h k
  ]
  | inr h ↦ sym (insert_comm_lt y x l (bytes_le_total x y h) h)
]

Texts_set : IsSet (List Bytes)
Texts_set = hlevel

-- What is sorted does not depend on the order it came in.
pub sort-perm : {xs ys : List Bytes} → Perm xs ys → sort xs ≡ sort ys
unfolding sort
sort-perm p = Perm.foldr-eq Texts_set insert insert_comm p []
