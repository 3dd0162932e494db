-- ===== src/Buffer/Grow.antt =====
-- src/session/buffer.rs, the calls that add bytes: `reserve`, `extend_from_slice`, `increase_len`.
use rpc_perf.Base.{
  ℕ, ◌+◌, ◌-◌, ◌^◌, ◌≤◌, ◌≡◌, refl, ap, ◌∙◌, inl, inr, ◌++◌, arith, ltb, le→leb, ltb→lt, Bool-cases,
  length, take, drop, resize, copy_at, length-resize, take-resize, length-copy_at, take-copy_at,
  length-take, length-replicate, min, add_usize,
}
use rpc_perf.Base.Bytes.{Bytes}
use rpc_perf.Base.Outcome.{ret}
use rpc_perf.Buffer.{
  Buffer, with_capacity, available_capacity, len, reserve, increase_len, write_slice,
  extend_from_slice, borrow, fill,
}
use rpc_perf.Buffer.Power.{next_power_of_two_lem}

-- A session's buffer between two calls. Its contents start at 0, as `consume` leaves them, and it
-- has no more than 2^62 bytes, so that no offset wraps.
pub record IsValid (b : Buffer) : Type 0 where
  pub compact : b.read_offset ≡ 0
  pub written : b.write_offset ≤ length b.buffer
  pub room : length b.buffer ≤ 2 ^ 62
  pub target : b.target_capacity ≤ length b.buffer

pub with_capacity-IsValid : (c : ℕ) → c ≤ 2 ^ 62 → IsValid (with_capacity c)
unfolding with_capacity
with_capacity-IsValid c h = omega (arith, length-replicate {A = ℕ} c 0)

pub borrow_compact : {b : Buffer} → IsValid b → borrow b ≡ take b.write_offset b.buffer
unfolding borrow
borrow_compact {b} v = ap (λ i. drop i (take b.write_offset b.buffer)) v.compact

pub length-borrow : {b : Buffer} → IsValid b → length (borrow b) ≡ b.write_offset
length-borrow {b} v =
    omega (arith, ap length (borrow_compact v), length-take b.write_offset b.buffer)

-- `len` is the number of bytes held.
pub len-borrow : {b : Buffer} → IsValid b → len b ≡ length (borrow b)
unfolding len
len-borrow {b} v = omega (arith, length-borrow v)

pub available_capacity_lem :
    {b : Buffer} → IsValid b → available_capacity b ≡ length b.buffer - b.write_offset
unfolding available_capacity
available_capacity_lem v = omega arith

-- `reserve` on a valid buffer: enough room, nothing else changed. A buffer that had the room is
-- left alone, and one that grows gets the next power of two.
pub record Reserved (b : Buffer) (additional : ℕ) (b' : Buffer) : Type 0 where
  pub valid : IsValid b'
  pub written : b'.write_offset ≡ b.write_offset
  pub enough : additional ≤ available_capacity b'
  pub kept : borrow b' ≡ borrow b
  pub grown : length b.buffer ≤ length b'.buffer
  pub target : b'.target_capacity ≡ b.target_capacity

resized-Reserved :
    (b : Buffer) (additional n : ℕ)
    → IsValid b
    → length b.buffer ≤ n
    → b.write_offset + additional ≤ n
    → n ≤ 2 ^ 62
    → Reserved b additional (record b { buffer = resize n b.buffer })
resized-Reserved b additional n v grows fits small = record {
  valid = valid;
  written = refl;
  enough = omega (arith, available_capacity_lem valid, length-resize n b.buffer);
  kept =
      rw (borrow_compact valid, borrow_compact v)
        (take-resize b.write_offset n b.buffer (omega arith) (omega arith));
  grown = omega (arith, length-resize n b.buffer);
  target = refl;
}
  where
    valid : IsValid (record b { buffer = resize n b.buffer })
    valid = omega (arith, length-resize n b.buffer)

-- On a valid buffer whose contents and the bytes asked for stay within 2^62, reserve leaves room
-- for these bytes, keeps the contents, the write offset and the target, does not make the buffer
-- smaller, and keeps it valid.
pub reserve-Reserved :
    (b : Buffer) (additional : ℕ)
    → IsValid b
    → b.write_offset + additional ≤ 2 ^ 62
    → Reserved b additional (reserve b additional)
unfolding reserve
reserve-Reserved b additional v h = elim (Bool-cases (ltb 0 (additional - available_capacity b))) [
  | inl e ↦
      rw (e, reserve)
        (let needed = additional - available_capacity b in
          let exact : add_usize (length b.buffer) needed ≡ b.write_offset + additional =
            omega (arith, available_capacity_lem v, ltb→lt 0 needed e) in
          rw exact (
            let (p, small) =
              next_power_of_two_lem (b.write_offset + additional) 62 (omega arith) h in
            resized-Reserved b additional _ v
              (omega (arith, p.covers, available_capacity_lem v, ltb→lt 0 needed e)) p.covers
              small))
  | inr e ↦
      rw (e, reserve)
        (record {
          valid = v;
          written = refl;
          enough = ground arith;
          kept = refl;
          grown = omega arith;
          target = refl;
        })
]

-- A valid buffer with room takes the bytes, after those that it holds.
pub write_slice_lem :
    (b : Buffer) (other : Bytes)
    → IsValid b
    → length other ≤ available_capacity b
    → write_slice b other ≡ ret (record b { buffer = copy_at b.buffer b.write_offset other })
unfolding write_slice
write_slice_lem b other v h = rw (
  le→leb b.write_offset (add_usize b.write_offset (length other))
      (omega (arith, available_capacity_lem v)),
  le→leb (add_usize b.write_offset (length other)) (length b.buffer)
      (omega (arith, available_capacity_lem v)),
)

-- `fill` and then `increase_len`, as a read from the stream does: the bytes are appended.
pub record Appended (b : Buffer) (bytes : Bytes) (b' : Buffer) : Type 0 where
  pub valid : IsValid b'
  pub content : borrow b' ≡ borrow b ++ bytes

pub fill-Appended :
    (b : Buffer) (bytes : Bytes)
    → IsValid b
    → length bytes ≤ available_capacity b
    → Appended b bytes (increase_len (fill b bytes) (length bytes))
      × (length (increase_len (fill b bytes) (length bytes)).buffer ≡ length b.buffer)
unfolding increase_len fill
fill-Appended b bytes v h = (record { valid = valid; content = content }, size)
  where
    size : length (copy_at b.buffer b.write_offset bytes) ≡ length b.buffer
    size = length-copy_at b.buffer b.write_offset bytes (omega (arith, available_capacity_lem v))

    valid : IsValid (increase_len (fill b bytes) (length bytes))
    valid = omega (arith, size, available_capacity_lem v)

    end :
        min
          (add_usize b.write_offset (length bytes))
          (length (copy_at b.buffer b.write_offset bytes))
        ≡ b.write_offset + length bytes
    end = omega (arith, size, available_capacity_lem v)

    content : borrow (increase_len (fill b bytes) (length bytes)) ≡ borrow b ++ bytes
    content =
        rw (borrow_compact valid, borrow_compact v)
          (ap (λ k. take k (copy_at b.buffer b.write_offset bytes)) end
            ∙ take-copy_at b.buffer b.write_offset bytes v.written)

-- On a valid buffer whose contents stay within 2^62 bytes, extend_from_slice does not panic: it
-- appends the slice to the contents and keeps the buffer valid.
pub extend_from_slice_lem :
    (b : Buffer) (other : Bytes)
    → IsValid b
    → length (borrow b) + length other ≤ 2 ^ 62
    → (b' : Buffer) × (extend_from_slice b other ≡ ret b') × Appended b other b'
unfolding extend_from_slice fill
extend_from_slice_lem b other v h =
    let r = reserve-Reserved b (length other) v (omega (arith, length-borrow v)) in
    let grown = reserve b (length other) in
    let a = fill-Appended grown other r.valid r.enough in
    (
      increase_len (fill grown other) (length other),
      rw (write_slice_lem grown other r.valid r.enough, extend_from_slice),
      record { valid = a.0.valid; content = a.0.content ∙ ap (λ xs. xs ++ other) r.kept },
    )

pub increase_len-target :
    (b : Buffer) (n : ℕ) → (increase_len b n).target_capacity ≡ b.target_capacity
unfolding increase_len
increase_len-target b n = refl

pub fill-target : (b : Buffer) (xs : Bytes) → (fill b xs).target_capacity ≡ b.target_capacity
unfolding fill
fill-target b xs = refl
