-- ===== src/Buffer/Gear.antt =====
-- src/session/buffer.rs, the sizes that the buffer takes: powers of two, from a power of two on.
use rpc_perf.Base.{
  ℕ, zero, suc, ◌+◌, ◌-◌, ◌*◌, ◌/◌, ◌^◌, ◌≤◌, ◌<◌, ◌≡◌, ◌∙◌, inl, inr, arith, ltb, Bool-cases,
  ltb→lt, lt→ltb, true, sym, subst, min, length, take, length-take, length-resize, add_usize,
  mul_usize,
}
use rpc_perf.Base.Outcome.{ret}
use rpc_perf.Buffer.Shrink.{shifted, consume-shifted, shifted-IsValid, length-shifted}
use rpc_perf.Buffer.{Buffer, next_power_of_two, available_capacity, len, reserve, shrink, consume}
use rpc_perf.Buffer.Power.{IsPower, pow_double, pow_mono, next_power_of_two_lem}
use rpc_perf.Buffer.Grow.{IsValid}

-- `reserve` on a full buffer whose size is a power of two below 2^m, by at most that size: the new
-- size is a power of two, is larger, and is at most 2^m.
pub record Geared (m : ℕ) (b b' : Buffer) : Type 0 where
  pub power : IsPower (length b'.buffer)
  pub larger : length b.buffer < length b'.buffer
  pub limit : length b'.buffer ≤ 2 ^ m

pub double_below : (a n m : ℕ) → n ≡ 2 ^ a → n < 2 ^ m → 2 * n ≤ 2 ^ m
double_below a n m e h = elim (Bool-cases (ltb a m)) [
  | inl less ↦ omega (arith, pow_double a, pow_mono (suc a) m (ltb→lt a m less))
  | inr more ↦ absurd (omega (arith, pow_mono m a (ground arith)))
]

-- On a valid buffer that is full, with a size that is a power of two below 2^m, m at most 62,
-- reserve of some bytes, no more than that size, makes the size a larger power of two that is at
-- most 2^m.
pub reserve-Geared :
    (b : Buffer) (additional m : ℕ)
    → IsValid b
    → IsPower (length b.buffer)
    → m ≤ 62
    → available_capacity b ≡ 0
    → 0 < additional
    → additional ≤ length b.buffer
    → length b.buffer < 2 ^ m
    → Geared m b (reserve b additional)
unfolding reserve
reserve-Geared b additional m v p hm full pos fits below =
    let grows : ltb 0 (additional - available_capacity b) ≡ true =
      lt→ltb 0 (additional - available_capacity b) (omega arith) in
    let small : length b.buffer + additional ≤ 2 ^ m =
      omega (arith, double_below p.exponent (length b.buffer) m p.power below) in
    let exact : add_usize (length b.buffer) (additional - available_capacity b)
        ≡ length b.buffer + additional =
      omega (arith, pow_mono m 62 hm) in
    let (q, top) = next_power_of_two_lem (length b.buffer + additional) m hm small in
    rw (grows, exact, reserve)
      (record {
        power =
            rw (length-resize (next_power_of_two (length b.buffer + additional)) b.buffer)
              q.is_power;
        larger = omega (
          arith,
          q.covers,
          length-resize (next_power_of_two (length b.buffer + additional)) b.buffer,
        );
        limit =
            omega (
              arith,
              top,
              length-resize (next_power_of_two (length b.buffer + additional)) b.buffer,
            );
      })

half-IsPower : (i n : ℕ) → n ≡ 2 ^ i → 2 ≤ n → IsPower (n / 2)
half-IsPower zero n e h = absurd (omega arith)
half-IsPower (suc i) n e h = record { exponent = i; power = omega (arith, pow_double i) }

-- `shrink` leaves the size, halves it or takes the target.
shrink-IsPower :
    (b : Buffer)
    → IsValid b
    → IsPower (length b.buffer)
    → IsPower b.target_capacity
    → IsPower (length (shrink b).buffer)
unfolding shrink
shrink-IsPower b v p t = elim (Bool-cases (ltb (length b.buffer) (mul_usize (len b) 2))) [
  | inl full ↦ rw (full, shrink) p
  | inr roomy ↦ elim (Bool-cases (ltb b.target_capacity (len b))) [
    | inl above ↦
        rw (roomy, above, shrink)
          (let cut : length (take (length b.buffer / 2) b.buffer) ≡ length b.buffer / 2 =
              omega (arith, length-take (length b.buffer / 2) b.buffer) in
            rw cut (half-IsPower p.exponent (length b.buffer) p.power (ground arith)))
    | inr below ↦
        rw (roomy, below, shrink)
          (let cut : length (take b.target_capacity b.buffer) ≡ b.target_capacity =
              omega (arith, length-take b.target_capacity b.buffer) in
            rw cut t)
  ]
]

-- `consume` keeps the size a power of two, if the target is one.
pub consume-IsPower :
    (b : Buffer) (bytes : ℕ) (b' : Buffer)
    → IsValid b
    → bytes < 2 ^ 64
    → IsPower (length b.buffer)
    → IsPower b.target_capacity
    → consume b bytes ≡ ret b'
    → IsPower (length b'.buffer)
unfolding shifted
consume-IsPower b bytes b' v h p t e =
    subst (λ r. IsPower (length r.buffer)) (ret_injective (sym (consume-shifted b bytes v h) ∙ e))
      (shrink-IsPower (shifted b n) (shifted-IsValid b n v (omega arith))
        (rw (length-shifted b n v (omega arith)) p) t)
  where
    n : ℕ
    n = min bytes b.write_offset

    ret_injective : {x y : Buffer} → ret x ≡ ret y → x ≡ y
    ret_injective q = cc
