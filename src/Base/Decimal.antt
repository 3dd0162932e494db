-- ===== src/Base/Decimal.antt =====
-- `format!("{}", n)`, `format!("{:0>len$}", n)`, and the integer parsers of the standard library.
use Prim.Native.Nat.{ℕ, zero, suc, ◌+◌, ◌-◌, ◌*◌, ◌/◌, ◌%◌, ◌^◌, ◌≤◌, ◌<◌}
use mathlib.Core.Path.{◌≡◌, refl, sym, ap, ◌∙◌, subst}
use mathlib.Core.Logic.{inl, inr}
use mathlib.Core.Bool.{Bool, true, false, ◌&&◌}
use mathlib.Core.List.{[], ◌∷◌, ◌++◌}
use mathlib.Core.Option.{Option, none, some}
use native.Mathlib.Omega.{arith}
use rpc_perf.Base.Tests.{ltb, leb, ◌==◌, ltb→lt, Bool-cases, Option-cases, if◌then◌else◌}
use rpc_perf.Base.Lists.{length, replicate}
use rpc_perf.Base.Bytes.{Bytes}

-- The decimal digits of `n`; `suc n` rounds are enough.
to_digits : ℕ → ℕ → Bytes
to_digits zero n = []
to_digits (suc f) n =
    let front = to_digits f (n / 10) in
    if ltb n 10 then (b'0' + n) ∷ [] else front ++ ((b'0' + n % 10) ∷ [])

unfoldable pub to_decimal : ℕ → Bytes
unfolding to_digits
to_decimal n = to_digits (suc n) n

-- `{:0>len$}`: filled up with zeros on the left.
unfoldable pub zero_padded : ℕ → ℕ → Bytes
zero_padded n len = let digits = to_decimal n in replicate (len - length digits) b'0' ++ digits

abbrev pub is_digit : ℕ → Bool
is_digit c = leb b'0' c && leb c b'9'

-- One more digit, below `limit`.
add_digit : ℕ → ℕ → ℕ → Option ℕ
add_digit limit acc c =
    let next = acc * 10 + (c - b'0') in
    if is_digit c then (if ltb next limit then some next else none) else none

scan : ℕ → ℕ → Bytes → Option ℕ
scan limit acc [] = some acc
scan limit acc (c ∷ s) = elim (add_digit limit acc c) [
  | some next ↦ scan limit next s
  | none ↦ none
]

-- At least a digit.
scan_digits : ℕ → Bytes → Option ℕ
unfolding scan
scan_digits limit [] = none
scan_digits limit (c ∷ s) = scan limit 0 (c ∷ s)

-- `str::parse::<usize>`: an optional `+`, then digits, without overflow.
unfoldable pub parse_usize : Bytes → Option ℕ
unfolding scan_digits add_digit
parse_usize [] = none
parse_usize (c ∷ s) = if c == b'+' then scan_digits (2 ^ 64) s else scan_digits (2 ^ 64) (c ∷ s)

-- Whether `str::parse::<i64>` succeeds: an optional sign, then digits; -2^63 is the least value.
unfoldable pub parses_i64 : Bytes → Bool
unfolding scan_digits add_digit
parses_i64 [] = false
parses_i64 (c ∷ s) =
    let limit = if c == b'-' then 2 ^ 63 + 1 else 2 ^ 63 in
    let body = if c == b'-' then s else if c == b'+' then s else c ∷ s in
    elim (scan_digits limit body) [ some n ↦ true | none ↦ false ]

add_digit_lem :
    (limit acc d : ℕ)
    → d < 10
    → acc * 10 + d < limit
    → add_digit limit acc (b'0' + d) ≡ some (acc * 10 + d)
unfolding add_digit
add_digit_lem limit acc d h k = ground arith

none≢some : {b : ℕ} → ◌≡◌ {A = Option ℕ} none (some b) → ⊥
none≢some e = cc

some-injective : {a b : ℕ} → ◌≡◌ {A = Option ℕ} (some a) (some b) → a ≡ b
some-injective e = cc

scan-snoc :
    (limit acc : ℕ) (s : Bytes) (c b : ℕ)
    → scan limit acc s ≡ some b
    → scan limit acc (s ++ (c ∷ [])) ≡ add_digit limit b c
unfolding scan
scan-snoc limit acc [] c b e = elim (Option-cases (add_digit limit acc c)) [
  | inl h ↦ rw (h, scan) (rw (← some-injective e) (sym h))
  | inr (v, h) ↦ rw (h, scan) (rw (← some-injective e) (sym h))
]
scan-snoc limit acc (x ∷ s) c b e = elim (Option-cases (add_digit limit acc x)) [
  | inl h ↦ absurd (none≢some (rw (h, scan) at e))
  | inr (v, h) ↦ rw (h, scan) (scan-snoc limit v s c b (rw (h, scan) at e))
]

small : (n limit : ℕ) → n < 10 → n < limit → scan limit 0 ((b'0' + n) ∷ []) ≡ some n
unfolding scan
small n limit h k = rw (add_digit_lem limit 0 n h (omega arith), scan) (ap some (omega arith))

scan-to_digits : (f n limit : ℕ) → n < f → n < limit → scan limit 0 (to_digits f n) ≡ some n
unfolding to_digits
scan-to_digits zero n limit h k = absurd (omega arith)
scan-to_digits (suc f) n limit h k = elim (Bool-cases (ltb n 10)) [
  | inl e ↦ rw (e, to_digits) (small n limit (ltb→lt n 10 e) k)
  | inr e ↦
      rw (e, to_digits)
        (scan-snoc limit 0 (to_digits f (n / 10)) (b'0' + n % 10) (n / 10)
            (scan-to_digits f (n / 10) limit (ground arith) (omega arith))
          ∙ add_digit_lem limit (n / 10) (n % 10) (omega arith) (omega arith)
          ∙ ap some (omega arith))
]

-- Every byte is a digit.
abbrev pub Digits : Bytes → Type 0
Digits [] = Unit {0}
Digits (c ∷ s) = (b'0' ≤ c) × (c ≤ b'9') × Digits s

Digits-snoc : (s : Bytes) (c : ℕ) → Digits s → b'0' ≤ c → c ≤ b'9' → Digits (s ++ (c ∷ []))
Digits-snoc [] c d h k = (h, k, tt)
Digits-snoc (x ∷ s) c d h k = (d.0, d.1, Digits-snoc s c d.2 h k)

to_digits-Digits : (f n : ℕ) → Digits (to_digits f n)
unfolding to_digits
to_digits-Digits zero n = tt
to_digits-Digits (suc f) n = elim (Bool-cases (ltb n 10)) [
  | inl e ↦ rw (e, to_digits) (omega arith, omega (arith, ltb→lt n 10 e), tt)
  | inr e ↦
      rw (e, to_digits)
        (Digits-snoc (to_digits f (n / 10)) (b'0' + n % 10) (to_digits-Digits f (n / 10))
          (omega arith) (omega arith))
]

pub to_decimal-Digits : (n : ℕ) → Digits (to_decimal n)
unfolding to_decimal
to_decimal-Digits n = to_digits-Digits (suc n) n

snoc-cons : (s : Bytes) (c : ℕ) → (x : ℕ) × (t : Bytes) × (s ++ (c ∷ []) ≡ x ∷ t)
snoc-cons [] c = (c, [], refl)
snoc-cons (x ∷ s) c = (x, s ++ (c ∷ []), refl)

-- A number has at least one digit.
pub to_decimal-cons : (n : ℕ) → (x : ℕ) × (t : Bytes) × (to_decimal n ≡ x ∷ t)
unfolding to_decimal to_digits
to_decimal-cons n = elim (Bool-cases (ltb n 10)) [
  | inl e ↦ (b'0' + n, [], rw (e, to_digits))
  | inr e ↦
      let (x, t, h) = snoc-cons (to_digits n (n / 10)) (b'0' + n % 10) in
      (x, t, rw (e, to_digits) h)
]

scan_digits-cons : (limit x : ℕ) (t : Bytes) → scan_digits limit (x ∷ t) ≡ scan limit 0 (x ∷ t)
unfolding scan_digits
scan_digits-cons limit x t = refl

-- `parse` reads back what `format!` has printed.
pub parse_usize-to_decimal : (n : ℕ) → n < 2 ^ 64 → parse_usize (to_decimal n) ≡ some n
unfolding parse_usize
parse_usize-to_decimal n h =
    let (x, t, e) = to_decimal-cons n in
    let d : Digits (x ∷ t) = subst Digits e (to_decimal-Digits n) in
    let plain : (x == b'+') ≡ false = ground arith in
    rw e (
      rw plain (
        scan_digits-cons (2 ^ 64) x t
        ∙ rw (← e) (unfold to_decimal in scan-to_digits (suc n) n (2 ^ 64) (omega arith) h)))
