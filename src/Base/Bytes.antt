-- ===== src/Base/Bytes.antt =====
-- Byte strings as lists of numbers, comparison of slices, and the search of a window.
use Prim.Native.Nat.{ℕ, zero, suc, ◌+◌, ◌≤◌, ◌<◌}
use Prim.Native.Char.{code}
use Prim.Native.String.{String}
use mathlib.Core.Path.{◌≡◌, refl, sym, ap, ◌∙◌}
use mathlib.Core.Logic.{◌≢◌, ◌⊎◌, inl, inr}
use mathlib.Core.Bool.{Bool, true, false, ◌&&◌}
use mathlib.Core.List.{List, [], ◌∷◌, ◌++◌}
use mathlib.Core.Option.{Option, none, some}
use mathlib.Core.Option
use native.Mathlib.Omega.{arith}
use rpc_perf.Base.Tests.{Bool-cases, ◌==◌, if◌then◌else◌}
use rpc_perf.Base.Lists.{
  length, take, drop, take-append_le, take-append_eq, length-take, length-drop,
}

abbrev pub Bytes : Type 0
Bytes = List ℕ

-- The bytes of an ASCII literal.
abbrev pub codes : String → Bytes
codes String.[] = []
codes (String.◌∷◌ c s) = code c ∷ codes s

abbrev pub crlf : Bytes
crlf = 13 ∷ 10 ∷ []

pub bytes_eq : Bytes → Bytes → Bool
bytes_eq [] [] = true
bytes_eq [] (y ∷ ys) = false
bytes_eq (x ∷ xs) [] = false
bytes_eq (x ∷ xs) (y ∷ ys) = x == y && bytes_eq xs ys

pub bytes_eq→≡ : (xs ys : Bytes) → bytes_eq xs ys ≡ true → xs ≡ ys
unfolding bytes_eq
bytes_eq→≡ [] [] h = refl
bytes_eq→≡ [] (y ∷ ys) h = cc
bytes_eq→≡ (x ∷ xs) [] h = cc
bytes_eq→≡ (x ∷ xs) (y ∷ ys) h = ground (arith, bytes_eq→≡ xs ys)

pub bytes_eq_self : (xs : Bytes) → bytes_eq xs xs ≡ true
unfolding bytes_eq
bytes_eq_self [] = refl
bytes_eq_self (x ∷ xs) = ground (arith, bytes_eq_self xs)

pub bytes_cases : (xs ys : Bytes) → (xs ≡ ys) ⊎ (xs ≢ ys)
bytes_cases xs ys = elim (Bool-cases (bytes_eq xs ys)) [
  | inl e ↦ inl (bytes_eq→≡ xs ys e)
  | inr e ↦
      inr (λ same. absurd (different (sym e ∙ ap (bytes_eq xs) (sym same) ∙ bytes_eq_self xs)))
]
  where
    different : false ≡ true → ⊥
    different h = cc

pub either_cases : (xs ys zs : Bytes) → ((xs ≡ ys) ⊎ (xs ≡ zs)) ⊎ ((xs ≢ ys) × (xs ≢ zs))
either_cases xs ys zs = elim (bytes_cases xs ys) [
  | inl a ↦ inl (inl a)
  | inr a ↦ elim (bytes_cases xs zs) [ inl b ↦ inl (inr b) | inr b ↦ inr (a, b) ]
]

-- `buf[0..p.len()] == p`, once the code knows that `buf` is that long.
pub begins : Bytes → Bytes → Bool
begins p buf = bytes_eq (take (length p) buf) p

pub begins→≡ : (p buf : Bytes) → begins p buf ≡ true → take (length p) buf ≡ p
unfolding begins
begins→≡ p buf h = bytes_eq→≡ (take (length p) buf) p h

pub begins-append_self : (r rest : Bytes) → begins r (r ++ rest) ≡ true
unfolding begins
begins-append_self r rest =
    ap (λ t. bytes_eq t r) (take-append_eq (length r) r rest refl) ∙ bytes_eq_self r

-- `buf.windows(p.len()).position(|w| w == p)`, for a pattern that is not empty.
pub position : Bytes → Bytes → Option ℕ
position p [] = none
position p (x ∷ xs) = if begins p (x ∷ xs) then some 0 else Option.map suc (position p xs)

-- The window at the position found is the pattern.
pub position-found :
    (p buf : Bytes) (i : ℕ) → position p buf ≡ some i → take (length p) (drop i buf) ≡ p
unfolding position begins
position-found p [] i h = cc
position-found p (x ∷ xs) zero h = ground (arith, bytes_eq→≡ (take (length p) (x ∷ xs)) p)
position-found p (x ∷ xs) (suc i) h = ground (arith, position-found p xs i)

-- No window before it is.
pub position-first :
    (p buf : Bytes) (i j : ℕ) → position p buf ≡ some i → j < i → begins p (drop j buf) ≡ false
unfolding position
position-first p [] i j h l = cc
position-first p (x ∷ xs) zero j h l = absurd (omega arith)
position-first p (x ∷ xs) (suc i) zero h l = ground arith
position-first p (x ∷ xs) (suc i) (suc j) h l = ground (arith, position-first p xs i j)

-- A window that matches is found.
pub position-some :
    (p buf : Bytes) (j : ℕ)
    → position p buf ≡ none
    → begins p (drop j buf) ≡ true
    → j < length buf
    → ⊥
unfolding position
position-some p [] j h e l = omega arith
position-some p (x ∷ xs) zero h e l = ground arith
position-some p (x ∷ xs) (suc j) h e l = ground (arith, position-some p xs j)

-- No carriage return, so no line end.
abbrev pub LacksCr : Bytes → Type 0
LacksCr [] = Unit {0}
LacksCr (c ∷ s) = (c ≢ 13) × LacksCr s

position-crlf_here : (rest : Bytes) → position crlf (13 ∷ 10 ∷ rest) ≡ some 0
unfolding position begins bytes_eq
position-crlf_here rest = refl

position-crlf_there :
    (c : ℕ) (s : Bytes) → c ≢ 13 → position crlf (c ∷ s) ≡ Option.map suc (position crlf s)
unfolding position begins bytes_eq
position-crlf_there c [] h = ground arith
position-crlf_there c (x ∷ s) h = ground arith

-- Whether a line end begins a text shows in its first two bytes.
pub position-crlf_cons :
    (x y : ℕ) (t : Bytes)
    → position crlf (x ∷ y ∷ t)
      ≡ (if x == 13 && y == 10 then some 0 else Option.map suc (position crlf (y ∷ t)))
unfolding position begins bytes_eq
position-crlf_cons x y t = ground arith

pub position-crlf_one : (x : ℕ) → position crlf (x ∷ []) ≡ none
unfolding position begins bytes_eq
position-crlf_one x = ground arith

-- The first line end stands behind a line that has none.
pub position-crlf :
    (line rest : Bytes) → LacksCr line → position crlf (line ++ (crlf ++ rest)) ≡ some (length line)
position-crlf [] rest h = position-crlf_here rest
position-crlf (c ∷ s) rest h =
    position-crlf_there c (s ++ (crlf ++ rest)) h.0 ∙ ap (Option.map suc) (position-crlf s rest h.1)

-- A line end needs two bytes.
position-crlf_lone : position crlf (13 ∷ []) ≡ none
unfolding position begins bytes_eq
position-crlf_lone = refl

position-nil : (p : Bytes) → position p [] ≡ none
unfolding position
position-nil p = refl

pub position-crlf-none : (line : Bytes) → LacksCr line → position crlf line ≡ none
position-crlf-none [] h = position-nil crlf
position-crlf-none (c ∷ s) h =
    position-crlf_there c s h.0 ∙ ap (Option.map suc) (position-crlf-none s h.1)

-- Nor has a line that is cut between its two.
pub position-crlf_cut : (line : Bytes) → LacksCr line → position crlf (line ++ (13 ∷ [])) ≡ none
position-crlf_cut [] h = position-crlf_lone
position-crlf_cut (c ∷ s) h =
    position-crlf_there c (s ++ (13 ∷ [])) h.0 ∙ ap (Option.map suc) (position-crlf_cut s h.1)

begins-append : (p xs ys : Bytes) → length p ≤ length xs → begins p (xs ++ ys) ≡ begins p xs
unfolding begins
begins-append p xs ys h = ap (λ t. bytes_eq t p) (take-append_le (length p) xs ys h)

-- More bytes behind it do not move the window that is found.
pub position-append :
    (p xs ys : Bytes) (i : ℕ)
    → position p xs ≡ some i
    → i + length p ≤ length xs
    → position p (xs ++ ys) ≡ some i
unfolding position
position-append p [] ys i e h = cc
position-append p (x ∷ xs) ys zero e h = ground (arith, begins-append p (x ∷ xs) ys)
position-append p (x ∷ xs) ys (suc i) e h =
    ground (arith, begins-append p (x ∷ xs) ys, position-append p xs ys i)

position-lt : (p buf : Bytes) (i : ℕ) → position p buf ≡ some i → i < length buf
unfolding position
position-lt p [] i e = cc
position-lt p (x ∷ xs) zero e = omega arith
position-lt p (x ∷ xs) (suc i) e = ground (arith, position-lt p xs i)

-- The window that is found lies in the buffer.
pub position-bound : (p buf : Bytes) (i : ℕ) → position p buf ≡ some i → i + length p ≤ length buf
position-bound p buf i e = omega (
  arith,
  ap length (position-found p buf i e),
  length-take (length p) (drop i buf),
  length-drop i buf,
  position-lt p buf i e,
)
