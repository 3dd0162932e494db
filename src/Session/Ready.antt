-- ===== src/Session/Ready.antt =====
-- src/session/mod.rs: the state of a session's buffers between two calls.
use rpc_perf.Base.{
  ℕ, ◌^◌, ◌≤◌, ◌<◌, ◌≡◌, refl, ◌∙◌, inl, inr, ◌++◌, arith, ltb, Bool-cases, ltb→lt, ==_iff, ◌==◌,
  ◌*◌, length, length-replicate,
}
use rpc_perf.Base.Bytes.{Bytes}
use rpc_perf.Net.{Net}
use rpc_perf.Buffer.{borrow, with_capacity, available_capacity, reserve, fill}
use rpc_perf.Buffer.Power.{IsPower, pow_mono, pow_pos}
use rpc_perf.Buffer.Grow.{
  IsValid, with_capacity-IsValid, available_capacity_lem, fill-Appended, length-borrow,
  increase_len-target, fill-target,
}
use rpc_perf.Buffer.Gear.{reserve-Geared, double_below}
use rpc_perf.Buffer.Grow.{reserve-Reserved}
use rpc_perf.Stream.{Stream}
use rpc_perf.Session.{Session, new, make_room, received}

-- The sizes are powers of two, as the workers choose them (1024 and 512 * 1024), and the read
-- buffer's size is one between the two.
pub record IsReady {net : Net} (s : Session net) : Type 0 where
  pub reads : IsValid s.read_buffer
  pub writes : IsValid s.write_buffer
  pub size : IsPower (length s.read_buffer.buffer)
  pub min_power : IsPower s.min_capacity
  pub max_power : IsPower s.max_capacity
  pub max_small : s.max_capacity ≤ 2 ^ 62
  pub at_least : s.read_buffer.target_capacity ≡ s.min_capacity
  pub at_most : length s.read_buffer.buffer ≤ s.max_capacity

exponent_small : (n m : ℕ) → n ≡ 2 ^ m → n ≤ 2 ^ 62 → m ≤ 62
exponent_small n m e h = elim (Bool-cases (ltb 62 m)) [
  | inl big ↦ absurd (omega (arith, pow_mono 63 m (ltb→lt 62 m big)))
  | inr small ↦ ground arith
]

module _ {net : Net} where
  -- A new session is ready when its capacities are powers of two in order and at most 2^62.
  pub new-IsReady :
      (stream : Stream net) (least most now : ℕ)
      → IsPower least
      → IsPower most
      → least ≤ most
      → most ≤ 2 ^ 62
      → IsReady (new stream least most now)
  unfolding new with_capacity
  new-IsReady stream least most now p q h k = record {
    reads = with_capacity-IsValid least (omega arith);
    writes = with_capacity-IsValid least (omega arith);
    size = record { exponent = p.exponent; power = length-replicate least 0 ∙ p.power };
    min_power = p;
    max_power = q;
    max_small = k;
    at_least = refl;
    at_most = omega (arith, length-replicate {A = ℕ} least 0);
  }

  -- `make_room` on a session that has not reached `max_capacity` leaves room for at least a byte.
  pub record Roomy (s s' : Session net) : Type 0 where
    pub ready : IsReady s'
    pub room : 0 < available_capacity s'.read_buffer
    pub kept : borrow s'.read_buffer ≡ borrow s.read_buffer
    pub same : s'.write_buffer ≡ s.write_buffer
    pub limit : s'.max_capacity ≡ s.max_capacity

  pub make_room-Roomy :
      (s : Session net)
      → IsReady s
      → length (borrow s.read_buffer) < s.max_capacity
      → Roomy s (make_room s)
  unfolding make_room
  make_room-Roomy s r h = elim (Bool-cases (available_capacity s.read_buffer == 0)) [
    | inl full ↦ rw (full, make_room) (grown ((==_iff _ 0).0 full))
    | inr free ↦
        rw (free, make_room)
          (record { ready = r; room = ground arith; kept = refl; same = refl; limit = refl })
  ]
    where
      grown :
          available_capacity s.read_buffer ≡ 0
          → Roomy s (record s { read_buffer = reserve s.read_buffer s.min_capacity })
      grown full =
          let b = s.read_buffer in
          let m = r.max_power.exponent in
          let below : length b.buffer < 2 ^ m =
            omega
              (arith, available_capacity_lem r.reads, length-borrow r.reads, r.max_power.power) in
          let fits : s.min_capacity ≤ length b.buffer = omega arith in
          let pos : 0 < s.min_capacity =
            omega (arith, r.min_power.power, pow_pos r.min_power.exponent) in
          let top : 2 * length b.buffer ≤ 2 ^ m =
            double_below r.size.exponent (length b.buffer) m r.size.power below in
          let small : m ≤ 62 = exponent_small s.max_capacity m r.max_power.power r.max_small in
          let g = reserve-Geared b s.min_capacity m r.reads r.size small full pos fits below in
          let q =
            reserve-Reserved b s.min_capacity r.reads
              (omega (arith, r.reads.written, r.max_power.power, r.max_small)) in
          record {
            ready = record {
              reads = q.valid;
              writes = r.writes;
              size = g.power;
              min_power = r.min_power;
              max_power = r.max_power;
              max_small = r.max_small;
              at_least = q.target ∙ r.at_least;
              at_most = omega (arith, g.limit, r.max_power.power);
            };
            room = omega (arith, q.enough);
            kept = q.kept;
            same = refl;
            limit = refl;
          }

  -- Bytes that fit, put where the stream was told to, are appended to the read buffer.
  pub record Received (s : Session net) (bytes : Bytes) (s' : Session net) : Type 0 where
    pub ready : IsReady s'
    pub content : borrow s'.read_buffer ≡ borrow s.read_buffer ++ bytes

  pub received-Received :
      (s : Session net) (bytes : Bytes)
      → IsReady s
      → length bytes ≤ available_capacity s.read_buffer
      → Received s bytes (received s bytes)
  unfolding received
  received-Received s bytes r h =
      let (a, size) = fill-Appended s.read_buffer bytes r.reads h in
      record {
        ready = record {
          reads = a.valid;
          writes = r.writes;
          size = rw size r.size;
          min_power = r.min_power;
          max_power = r.max_power;
          max_small = r.max_small;
          at_least =
              increase_len-target (fill s.read_buffer bytes) (length bytes)
              ∙ fill-target s.read_buffer bytes
              ∙ r.at_least;
          at_most = omega (arith, size, r.at_most);
        };
        content = a.content;
      }
