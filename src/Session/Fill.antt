-- ===== src/Session/Fill.antt =====
-- src/session/mod.rs, `fill_buf`: the loop ends, and what it has read when it does.
use rpc_perf.Base.{
  ℕ, zero, suc, ◌+◌, ◌-◌, ◌≤◌, ◌<◌, ◌≡◌, ◌≢◌, refl, sym, ap, ◌∙◌, inl, inr, ◌⊎◌, Option, some, [],
  ◌∷◌, ◌++◌, append-nil, append_assoc, arith, ◌==◌, Bool-cases, length, length-append,
}
use rpc_perf.Base.Bytes.{Bytes}
use rpc_perf.Base.Outcome.{
  Io, ok, err, would_block, interrupted, not_connected, invalid_data, other, os,
}
use rpc_perf.Metrics.{Metrics}
use rpc_perf.Net.{Net, Fits}
use rpc_perf.Buffer.{borrow, len, available_capacity}
use rpc_perf.Buffer.Grow.{len-borrow, length-borrow}
use rpc_perf.Stream.{Stream}
use rpc_perf.Stream
use rpc_perf.Stream.States.{read-fits}
use rpc_perf.Session.{Session, make_room, received, on_read, fill_loop, fill_buf}
use rpc_perf.Session.Ready.{IsReady, make_room-Roomy, Received, received-Received}

-- What a run of the loop from `s`, `m` and `total` comes to: the bytes that it took are appended to
-- the read buffer, the session stays ready, `Ok` counts every byte, "would block" is returned only
-- if no byte was taken, and the write buffer is left alone.
pub record Filled {net : Net} (s : Session net) (m : Metrics) (total : ℕ)
    (out : Io (Unit {0}) × Session net × Metrics) : Type 0 where
  pub taken : Bytes
  pub content : borrow out.1.read_buffer ≡ borrow s.read_buffer ++ taken
  pub ready : IsReady out.1
  pub counts :
      out.0 ≡ ok tt → out.2.session_recv_byte ≡ m.session_recv_byte + (total + length taken)
  pub blocks : out.0 ≡ err would_block → (total ≡ 0) × (taken ≡ [])
  pub same : out.1.write_buffer ≡ s.write_buffer

if_ok : {P : Type 0} (r : Io (Unit {0})) → (r ≡ ok tt → P) → (r ≢ ok tt) ⊎ P
if_ok (ok u) h = inr (h refl)
if_ok (err e) h = inl (λ same. cc)

if_blocked :
    {P : Type 0} (r : Io (Unit {0})) → (r ≡ err would_block → P) → (r ≢ err would_block) ⊎ P
if_blocked (ok u) h = inl (λ same. cc)
if_blocked (err would_block) h = inr (h refl)
if_blocked (err interrupted) h = inl (λ same. cc)
if_blocked (err not_connected) h = inl (λ same. cc)
if_blocked (err invalid_data) h = inl (λ same. cc)
if_blocked (err other) h = inl (λ same. cc)
if_blocked (err (os n)) h = inl (λ same. cc)

module _ {net : Net} where
  pub with_stream-IsReady :
      {s : Session net} (st : Stream net) → IsReady s → IsReady (record s { stream = st })
  with_stream-IsReady st r = record {
    reads = r.reads;
    writes = r.writes;
    size = r.size;
    min_power = r.min_power;
    max_power = r.max_power;
    max_small = r.max_small;
    at_least = r.at_least;
    at_most = r.at_most;
  }

  Fills : Session net → Metrics → ℕ → Option (Io (Unit {0}) × Session net × Metrics) → Type 0
  Fills s m total r =
      (out : Io (Unit {0}) × Session net × Metrics) × (r ≡ some out) × Filled s m total out

  -- The loop ends here, with nothing taken.
  stops :
      (s s' : Session net) (m : Metrics) (total : ℕ) (r : Io (Unit {0})) (m' : Metrics)
      → IsReady s'
      → borrow s'.read_buffer ≡ borrow s.read_buffer
      → s'.write_buffer ≡ s.write_buffer
      → (r ≡ ok tt → m'.session_recv_byte ≡ m.session_recv_byte + total)
      → (r ≡ err would_block → total ≡ 0)
      → Filled s m total (r, s', m')
  stops s s' m total r m' ready kept same counts blocks = record {
    taken = [];
    content = kept ∙ sym (append-nil _);
    ready = ready;
    counts = λ e. omega (arith, counts e);
    blocks = λ e. (blocks e, refl);
    same = same;
  }

  -- One pass, for each answer of the stream.
  on_read-Filled :
      (rest : Session net → Metrics → ℕ → Option (Io (Unit {0}) × Session net × Metrics))
      (s s' : Session net) (m : Metrics) (total : ℕ) (answer : Io Bytes)
      → IsReady s'
      → borrow s'.read_buffer ≡ borrow s.read_buffer
      → s'.write_buffer ≡ s.write_buffer
      → ((bytes : Bytes) → answer ≡ ok bytes → length bytes ≤ available_capacity s'.read_buffer)
      → ((x : ℕ) (xs : Bytes)
          → Received s' (x ∷ xs) (received s' (x ∷ xs))
          → Fills
              (received s' (x ∷ xs))
              m
              (total + length (x ∷ xs))
              (rest (received s' (x ∷ xs)) m (total + length (x ∷ xs))))
      → Fills s m total (on_read rest s' m total answer)
  unfolding Fills on_read
  on_read-Filled rest s s' m total (ok []) ready kept same fits again =
      (_, refl, stops s s' m total _ _ ready kept same (λ e. refl) (λ e. cc))
  on_read-Filled rest s s' m total (ok (x ∷ xs)) ready kept same fits again =
      let q = received-Received s' (x ∷ xs) ready (fits (x ∷ xs) refl) in
      let (out, e, f) = again x xs q in
      (
        out,
        e,
        record {
          taken = (x ∷ xs) ++ f.taken;
          content =
              f.content
              ∙ ap (λ t. t ++ f.taken) (q.content ∙ ap (λ t. t ++ (x ∷ xs)) kept)
              ∙ append_assoc (borrow s.read_buffer) (x ∷ xs) f.taken;
          ready = f.ready;
          counts = λ h. omega (arith, f.counts h, length-append (x ∷ xs) f.taken);
          blocks = λ h. absurd (omega (arith, (f.blocks h).0));
          same = f.same ∙ same;
        },
      )
  on_read-Filled rest s s' m total (err would_block) ready kept same fits again =
      elim (Bool-cases (total == 0)) [
        | inl e ↦
            rw (e, on_read)
              (_, refl, stops s s' m total _ _ ready kept same (λ h. cc) (λ h. ground arith))
        | inr e ↦
            rw (e, on_read) (_, refl, stops s s' m total _ _ ready kept same (λ h. refl) (λ h. cc))
      ]
  on_read-Filled rest s s' m total (err e) ready kept same fits again =
      (_, refl, stops s s' m total _ _ ready kept same (λ h. cc) (λ h. cc))

  fill_loop-Filled :
      Fits net
      → (f : ℕ) (s : Session net) (m : Metrics) (total : ℕ) → IsReady s
      → s.max_capacity - length (borrow s.read_buffer) < f
      → Fills s m total (fill_loop f s m total)
  unfolding Fills fill_loop
  fill_loop-Filled fit zero s m total ready h = absurd (omega arith)
  fill_loop-Filled fit (suc f) s m total ready h =
      elim (Bool-cases (len s.read_buffer == s.max_capacity)) [
        | inl full ↦
            rw (full, fill_loop)
              (_, refl, stops s s m total _ _ ready refl refl (λ e. cc) (λ e. cc))
        | inr room ↦
            let q = make_room-Roomy s ready (not_full (ground arith)) in
            let roomy = make_room s in
            let space = available_capacity roomy.read_buffer in
            let st = (Stream.read roomy.stream space).1 in
            rw (room, fill_loop)
              (on_read-Filled (fill_loop f) s (record roomy { stream = st }) m total
                (Stream.read roomy.stream space).0 (with_stream-IsReady st q.ready) q.kept q.same
                (λ bytes e. read-fits fit roomy.stream space bytes e)
                (λ x xs r.
                  fill_loop-Filled fit f (received (record roomy { stream = st }) (x ∷ xs)) m
                    (total + length (x ∷ xs)) r.ready
                    (omega (
                      arith,
                      h,
                      q.limit,
                      not_full (ground arith),
                      ap length r.content,
                      ap length q.kept,
                      length-append (borrow roomy.read_buffer) (x ∷ xs),
                    ))))
      ]
    where
      not_full : len s.read_buffer ≢ s.max_capacity → length (borrow s.read_buffer) < s.max_capacity
      not_full ne = omega (
        arith,
        ne,
        len-borrow ready.reads,
        length-borrow ready.reads,
        ready.reads.written,
        ready.at_most,
      )

  -- What a call of `fill_buf` comes to.
  pub record Refilled (s : Session net) (m : Metrics) (out : Io (Unit {0}) × Session net × Metrics)
      : Type 0 where
    pub taken : Bytes
    pub content : borrow out.1.read_buffer ≡ borrow s.read_buffer ++ taken
    pub ready : IsReady out.1
    pub same : out.1.write_buffer ≡ s.write_buffer
    pub counts : (out.0 ≢ ok tt) ⊎ (out.2.session_recv_byte ≡ m.session_recv_byte + length taken)
    pub blocks : (out.0 ≢ err would_block) ⊎ (taken ≡ [])

  -- When no call of the stream returns more bytes than fit, fill_buf on a ready session returns,
  -- whatever the stream answers. The read buffer then holds what it held and then the bytes
  -- taken, the session is ready, so that its read buffer is no larger than max_capacity, and the
  -- write buffer is left alone. On Ok the received-byte counter has grown by the number of bytes
  -- taken, and a "would block" means that none was.
  pub fill_buf-Refilled :
      Fits net
      → (s : Session net) (m : Metrics) → IsReady s
      → (out : Io (Unit {0}) × Session net × Metrics) × (fill_buf s m ≡ some out) × Refilled s m out
  unfolding fill_buf Fills
  fill_buf-Refilled fit s m ready =
      let (out, e, f) =
        fill_loop-Filled fit (suc s.max_capacity) s (record m { session_recv = m.session_recv + 1 })
          0 ready (omega arith) in
      (
        out,
        e,
        record {
          taken = f.taken;
          content = f.content;
          ready = f.ready;
          same = f.same;
          counts = if_ok out.0 λ fine. omega (arith, f.counts fine);
          blocks = if_blocked out.0 λ waits. (f.blocks waits).1;
        },
      )
