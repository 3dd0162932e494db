-- ===== src/Buffer/Power.antt =====
-- `usize::next_power_of_two`, as src/session/buffer.rs uses it.
use native.Mathlib.Nat.{two-pow-succ, one-le-pow, pow-le-pow_right}
use rpc_perf.Base.{
  ℕ, zero, suc, ◌*◌, ◌^◌, ◌≤◌, ◌<◌, ◌≡◌, refl, ap, ◌⊎◌, inl, inr, arith, leb, true, Bool-cases,
  le→leb, leb→le, ◌∙◌,
}
use rpc_perf.Buffer.{double_to, next_power_of_two}

pub pow_double : (i : ℕ) → 2 ^ suc i ≡ 2 * 2 ^ i
pow_double i = omega (arith, two-pow-succ i)

pub pow_mono : (i j : ℕ) → i ≤ j → 2 ^ i ≤ 2 ^ j
pow_mono i j h = pow-le-pow_right (omega arith) h

pub pow_pos : (i : ℕ) → 1 ≤ 2 ^ i
pow_pos i = one-le-pow i 2 (omega arith)

-- What the doubling stops at, when it needs at most `j` doublings.
record Stops (j p n r : ℕ) : Type 0 where
  exponent : ℕ
  within : exponent ≤ j
  reached : r ≡ p * 2 ^ exponent
  covers : n ≤ r
  tight : (r ≡ p) ⊎ (r < 2 * n)

Stops-double : (j p n r : ℕ) → p < n → Stops j (2 * p) n r → Stops (suc j) p n r
Stops-double j p n r h s = record {
  exponent = suc s.exponent;
  within = omega arith;
  reached = omega (arith, ap (λ (t : ℕ). p * t) (pow_double s.exponent));
  covers = s.covers;
  tight = ground (arith, s.tight);
}

Stops-here : (j p n : ℕ) → n ≤ p → Stops j p n p
Stops-here j p n h = record {
  exponent = 0;
  within = omega arith;
  reached = omega arith;
  covers = h;
  tight = inl refl;
}

double_to-Stops : (j f p n : ℕ) → j < f → n ≤ p * 2 ^ j → Stops j p n (double_to f p n)
unfolding double_to
double_to-Stops j zero p n h k = absurd (omega arith)
double_to-Stops zero (suc f) p n h k =
    let e : leb n p ≡ true = le→leb n p (omega arith) in rw e (Stops-here 0 p n (omega arith))
double_to-Stops (suc j) (suc f) p n h k = elim (Bool-cases (leb n p)) [
  | inl e ↦ rw e (Stops-here (suc j) p n (leb→le n p e))
  | inr e ↦ rw e (
      Stops-double j p n _ (ground arith) (
        double_to-Stops j f (2 * p) n (omega arith)
          (omega (arith, ap (λ (t : ℕ). p * t) (pow_double j)))))
]

-- `m` is a power of two with exponent `i`.
pub record IsPower (m : ℕ) : Type 0 where
  pub exponent : ℕ
  pub power : m ≡ 2 ^ exponent

-- Up to 2^62 the call returns the least power of two that is not below its argument: a power of
-- two, at least `n`, less than twice `n` (or 1), and at most any power 2^j that covers `n`.
pub record NextPower (n r : ℕ) : Type 0 where
  pub is_power : IsPower r
  pub covers : n ≤ r
  pub tight : (r ≡ 1) ⊎ (r < 2 * n)

-- For n at most 2^j, with j at most 62, next_power_of_two returns a power of two that is at least
-- n, is 1 or less than 2 n, and is at most 2^j.
pub next_power_of_two_lem :
    (n j : ℕ)
    → j ≤ 62
    → n ≤ 2 ^ j
    → NextPower n (next_power_of_two n) × (next_power_of_two n ≤ 2 ^ j)
unfolding next_power_of_two
next_power_of_two_lem n j h k =
    let s = double_to-Stops j 64 1 n (omega arith) (omega arith) in
    (
      record {
        is_power = record { exponent = s.exponent; power = s.reached ∙ omega arith };
        covers = s.covers;
        tight = s.tight;
      },
      omega (arith, s.reached, pow_mono s.exponent j s.within),
    )
