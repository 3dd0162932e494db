-- ===== src/Buffer/Shrink.antt =====
-- src/session/buffer.rs, `consume`: what is dropped, and the size that the buffer shrinks to.
use rpc_perf.Base.{
  ◌⊎◌, leb, leb→le, le→leb, ℕ, ◌-◌, ◌*◌, ◌/◌, ◌^◌, ◌≤◌, ◌<◌, ◌≡◌, refl, sym, ap, ◌∙◌, inl, inr,
  true, false, drop-of_le, [], arith, ltb, leb, le→leb, leb→le, Bool-cases, ==_iff, length, take,
  drop, copy_at, length-copy_at, take-copy_at, length-take, length-drop, min, take-take_le,
  mul_usize, if◌then◌else◌, ◌==◌, add_usize, sub_usize,
}
use rpc_perf.Base.Bytes.{Bytes}
use rpc_perf.Base.Outcome.{ret}
use rpc_perf.Buffer.{Buffer, len, shift_left, shrink, consume, borrow}
use rpc_perf.Buffer.Grow.{IsValid, borrow_compact, length-borrow}

-- `shrink` keeps the contents, the target and the validity; it may only cut off free space.
record Shrunk (b b' : Buffer) : Type 0 where
  valid : IsValid b'
  content : borrow b' ≡ borrow b
  size : length b'.buffer ≤ length b.buffer
  target : b'.target_capacity ≡ b.target_capacity

cut-Shrunk :
    (b : Buffer) (n : ℕ)
    → IsValid b
    → b.write_offset ≤ n
    → b.target_capacity ≤ n
    → Shrunk b (record b { buffer = take n b.buffer })
cut-Shrunk b n v h k = record {
  valid = valid;
  content = rw (borrow_compact valid, borrow_compact v) (take-take_le b.write_offset n b.buffer h);
  size = omega (arith, length-take n b.buffer);
  target = refl;
}
  where
    valid : IsValid (record b { buffer = take n b.buffer })
    valid = omega (arith, length-take n b.buffer)

shrink-Shrunk : (b : Buffer) → IsValid b → Shrunk b (shrink b)
unfolding shrink
shrink-Shrunk b v = elim (Bool-cases (ltb (length b.buffer) (mul_usize (len b) 2))) [
  | inl full ↦
      rw (full, shrink) (record { valid = v; content = refl; size = omega arith; target = refl })
  | inr roomy ↦ elim (Bool-cases (ltb b.target_capacity (len b))) [
    | inl above ↦
        rw (roomy, above, shrink)
          (cut-Shrunk b (length b.buffer / 2) v (ground arith) (ground arith))
    | inr below ↦
        rw (roomy, below, shrink) (cut-Shrunk b b.target_capacity v (ground arith) (omega arith))
  ]
]

-- Once the contents fit the target and fill at most half of the buffer, its size is the target.
shrink-target :
    (b : Buffer)
    → IsValid b
    → b.write_offset * 2 ≤ length b.buffer
    → b.write_offset ≤ b.target_capacity
    → length (shrink b).buffer ≡ b.target_capacity
unfolding shrink
shrink-target b v h k = ground (arith, length-take b.target_capacity b.buffer)

-- The buffer of `consume` before it shrinks: the contents are moved to the start.
unfoldable pub shifted : Buffer → ℕ → Buffer
shifted b n = record b {
  buffer =
      if n == b.write_offset
      then b.buffer
      else copy_at b.buffer 0 (drop n (take b.write_offset b.buffer));
  read_offset = 0;
  write_offset = b.write_offset - n;
}

pub consume-shifted :
    (b : Buffer) (n : ℕ)
    → IsValid b
    → n < 2 ^ 64
    → consume b n ≡ ret (shrink (shifted b (min n b.write_offset)))
unfolding consume shift_left shifted
consume-shifted b n v h =
    rw (start, consume)
      (elim (Bool-cases (m == b.write_offset)) [
        | inl all ↦
            let gone : (sub_usize b.write_offset m == 0) ≡ true = ground arith in
            rw (gone, all, width, consume)
        | inr some_left ↦
            let kept : (sub_usize b.write_offset m == 0) ≡ false = ground arith in
            rw (
              kept,
              some_left,
              le→leb m b.write_offset (omega arith),
              le→leb b.write_offset (length b.buffer) v.written,
              width,
              consume,
            )
      ])
  where
    m : ℕ
    m = min n b.write_offset

    start : min (add_usize b.read_offset n) b.write_offset ≡ m
    start = omega arith

    width : sub_usize b.write_offset m ≡ b.write_offset - m
    width = omega arith

module _ (b : Buffer) (n : ℕ) (v : IsValid b) (h : n ≤ b.write_offset) where
  length-rest : length (drop n (take b.write_offset b.buffer)) ≡ b.write_offset - n
  length-rest =
      omega
        (arith, length-drop n (take b.write_offset b.buffer), length-take b.write_offset b.buffer)

  pub shifted-IsValid : IsValid (shifted b n)
  unfolding shifted
  shifted-IsValid = elim (Bool-cases (n == b.write_offset)) [
    | inl all ↦ rw all (omega arith)
    | inr some_left ↦ rw some_left (
        omega
          (arith, length-rest, length-copy_at b.buffer 0 (drop n (take b.write_offset b.buffer))))
  ]

  pub length-shifted : length (shifted b n).buffer ≡ length b.buffer
  unfolding shifted
  length-shifted = elim (Bool-cases (n == b.write_offset)) [
    | inl all ↦ rw all
    | inr some_left ↦ rw some_left (
        length-copy_at b.buffer 0 (drop n (take b.write_offset b.buffer))
          (omega (arith, length-rest)))
  ]

  borrow-shifted : borrow (shifted b n) ≡ drop n (borrow b)
  borrow-shifted = rw (borrow_compact shifted-IsValid, borrow_compact v) moved
    where
      rest : Bytes
      rest = drop n (take b.write_offset b.buffer)

      moved : take (shifted b n).write_offset (shifted b n).buffer ≡ rest
      moved =
          unfold shifted in
          elim (Bool-cases (n == b.write_offset)) [
            | inl all ↦
                let same : n ≡ b.write_offset = (==_iff n b.write_offset).0 all in
                let none_left : b.write_offset - n ≡ 0 = omega arith in
                let no_rest : rest ≡ [] =
                  drop-of_le n (take b.write_offset b.buffer)
                    (omega (arith, length-take b.write_offset b.buffer)) in
                rw (all, none_left, no_rest)
            | inr some_left ↦ rw some_left (
                ap (λ k. take k (copy_at b.buffer 0 rest)) (omega (arith, length-rest))
                ∙ take-copy_at b.buffer 0 rest (omega arith))
          ]

drop-min : (n w : ℕ) (xs : Bytes) → length xs ≡ w → drop (min n w) xs ≡ drop n xs
drop-min n w xs h = elim (Bool-cases (leb n w)) [
  | inl e ↦ ap (λ k. drop k xs) (omega (arith, leb→le n w e))
  | inr e ↦ drop-of_le (min n w) xs (ground arith) ∙ sym (drop-of_le n xs (ground arith))
]

-- What `consume` returns: the first `bytes` of the contents are gone, and the rest is unchanged.
-- The buffer does not grow, keeps its target, and is down at the target size as soon as what is
-- left fits the target and no more than half of the buffer.
pub record Consumed (b : Buffer) (bytes : ℕ) (b' : Buffer) : Type 0 where
  pub valid : IsValid b'
  pub content : borrow b' ≡ drop bytes (borrow b)
  pub size : length b'.buffer ≤ length b.buffer
  pub target : b'.target_capacity ≡ b.target_capacity
  pub shrunk :
      (length b.buffer < length (borrow b') * 2)
      ⊎ (b.target_capacity < length (borrow b'))
      ⊎ (length b'.buffer ≡ b.target_capacity)

-- On a valid buffer consume, for any usize count, does not panic: the first bytes are gone, up to
-- all of them, and the rest is unchanged. The buffer stays valid, does not grow, keeps its target
-- capacity, and is down at the target size unless what is left exceeds the target or half of the
-- buffer.
pub consume_lem :
    (b : Buffer) (bytes : ℕ)
    → IsValid b
    → bytes < 2 ^ 64
    → (b' : Buffer) × (consume b bytes ≡ ret b') × Consumed b bytes b'
unfolding shifted
consume_lem b bytes v h = (
  shrink moved,
  consume-shifted b bytes v h,
  record {
    valid = s.valid;
    content = content;
    size = omega (arith, s.size, length-shifted b n v below);
    target = s.target;
    shrunk = elim (Bool-cases (leb (length (borrow (shrink moved)) * 2) (length b.buffer))) [
      | inl half ↦ elim (Bool-cases (leb (length (borrow (shrink moved))) b.target_capacity)) [
        | inl fits ↦ inr (
            inr (
              shrink-target moved moved_valid
                (omega (arith, left, length-shifted b n v below, leb→le _ _ half))
                (omega (arith, left, leb→le _ _ fits))))
        | inr over ↦
            inr (inl (ground (arith, le→leb (length (borrow (shrink moved))) b.target_capacity)))
      ]
      | inr over ↦
          inl (ground (arith, le→leb (length (borrow (shrink moved)) * 2) (length b.buffer)))
    ];
  },
)
  where
    n : ℕ
    n = min bytes b.write_offset

    below : n ≤ b.write_offset
    below = omega arith

    moved : Buffer
    moved = shifted b n

    moved_valid : IsValid moved
    moved_valid = shifted-IsValid b n v below

    s : Shrunk moved (shrink moved)
    s = shrink-Shrunk moved moved_valid

    left : length (borrow (shrink moved)) ≡ moved.write_offset
    left = omega (arith, ap length s.content, length-borrow moved_valid)

    content : borrow (shrink moved) ≡ drop bytes (borrow b)
    content =
        s.content
        ∙ borrow-shifted b n v below
        ∙ drop-min bytes b.write_offset (borrow b) (length-borrow v)
