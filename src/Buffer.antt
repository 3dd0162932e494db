-- ===== src/Buffer.antt =====
-- src/session/buffer.rs: the growable byte buffer of a session.
pub mod Power
pub mod Grow
pub mod Shrink
pub mod Queue
pub mod Gear
use rpc_perf.Base.{
  ℕ, zero, suc, ◌+◌, ◌-◌, ◌*◌, ◌/◌, ◌≤◌, min, Bool, ◌&&◌, ◌++◌, ltb, leb, ◌==◌, not, if◌then◌else◌,
  add_usize, sub_usize, mul_usize, length, take, drop, replicate, copy_at, resize,
}
use rpc_perf.Base.Bytes.{Bytes}
use rpc_perf.Base.Outcome.{Outcome, ret, panic, check}

-- The metrics on the buffer's size are commented out in the source.
pub record Buffer : Type 0 where
  pub buffer : Bytes
  pub read_offset : ℕ
  pub write_offset : ℕ
  pub target_capacity : ℕ

-- The first power of two from `p` on, over `f` doublings, that is not below `n`.
pub double_to : ℕ → ℕ → ℕ → ℕ
double_to zero p n = 0
double_to (suc f) p n = let rest = double_to f (2 * p) n in if leb n p then p else rest

-- `usize::next_power_of_two`, which wraps to 0 above 2^63 in a release build.
pub next_power_of_two : ℕ → ℕ
next_power_of_two n = double_to 64 1 n

unfoldable pub with_capacity : ℕ → Buffer
with_capacity capacity = record {
  buffer = replicate capacity 0;
  read_offset = 0;
  write_offset = 0;
  target_capacity = capacity;
}

pub available_capacity : Buffer → ℕ
available_capacity b = sub_usize (length b.buffer) b.write_offset

pub len : Buffer → ℕ
len b = sub_usize b.write_offset b.read_offset

pub is_empty : Buffer → Bool
unfolding len
is_empty b = len b == 0

-- `-` on ℕ is `saturating_sub`.
pub reserve : Buffer → ℕ → Buffer
unfolding available_capacity
reserve b additional =
    let needed = additional - available_capacity b in
    if ltb 0 needed
    then record b {
      buffer = resize (next_power_of_two (add_usize (length b.buffer) needed)) b.buffer;
    }
    else b

pub increase_len : Buffer → ℕ → Buffer
increase_len b amt = record b {
  write_offset = min (add_usize b.write_offset amt) (length b.buffer);
}

-- `buffer[w..w + other.len()].copy_from_slice(other)`, which panics out of range.
pub write_slice : Buffer → Bytes → Outcome Buffer
write_slice b other =
    let end = add_usize b.write_offset (length other) in
    check (leb b.write_offset end && leb end (length b.buffer))
      (ret (record b { buffer = copy_at b.buffer b.write_offset other }))

pub extend_from_slice : Buffer → Bytes → Outcome Buffer
extend_from_slice b other = elim (write_slice (reserve b (length other)) other) [
  | ret b' ↦ ret (increase_len b' (length other))
  | panic ↦ panic
]

-- `copy_within(read_offset..write_offset, 0)`, which panics out of range.
pub shift_left : Buffer → Outcome Buffer
unfolding is_empty
shift_left b =
    if is_empty b
    then ret b
    else check (leb b.read_offset b.write_offset && leb b.write_offset (length b.buffer)) (
        ret (record b {
          buffer = copy_at b.buffer 0 (drop b.read_offset (take b.write_offset b.buffer));
        }))

-- The tail of `consume`: an early return, or `truncate` to the target size.
pub shrink : Buffer → Buffer
unfolding len
shrink b =
    if ltb (length b.buffer) (mul_usize (len b) 2)
    then b
    else if ltb b.target_capacity (len b)
    then record b { buffer = take (length b.buffer / 2) b.buffer }
    else record b { buffer = take b.target_capacity b.buffer }

pub consume : Buffer → ℕ → Outcome Buffer
consume b bytes =
    elim (shift_left
      (record b { read_offset = min (add_usize b.read_offset bytes) b.write_offset })) [
        | ret b' ↦ ret (
            shrink (record b' {
              write_offset = sub_usize b'.write_offset b'.read_offset;
              read_offset = 0;
            }))
        | panic ↦ panic
      ]

-- `Borrow::borrow`: the bytes that are written and not yet consumed.
pub borrow : Buffer → Bytes
borrow b = drop b.read_offset (take b.write_offset b.buffer)

-- A reader has put `bytes` at the start of the slice that `BorrowMut::borrow_mut` lends,
-- `buffer[write_offset..]`.
pub fill : Buffer → Bytes → Buffer
fill b bytes = record b { buffer = copy_at b.buffer b.write_offset bytes }
