-- ===== src/Session/Identity.antt =====
-- src/session/mod.rs: what the calls on the buffers leave alone, the token of a session and the
-- count of its outstanding requests. `RESPONSE` and `REQUEST` are not
-- theirs to count.
use rpc_perf.Base.{
  arith, subst, ℕ, zero, suc, ◌+◌, ◌≡◌, refl, inl, inr, Bool-cases, Option, some, none, [], ◌∷◌,
  ◌==◌, length,
}
use rpc_perf.Base.Bytes.{Bytes}
use rpc_perf.Base.Outcome.{ret, Io, ok, err, would_block}
use rpc_perf.Buffer.{available_capacity, len}
use rpc_perf.Metrics.{Metrics}
use rpc_perf.Net.{Net}
use rpc_perf.Stream
use rpc_perf.Session.{
  Session, consume, write, write_all, make_room, received, on_read, fill_loop, fill_buf, on_write,
  flush,
}

-- The token, the outstanding requests, and the responses and requests counted so far.
abbrev pub identity : {net : Net} → Session net → Metrics → ℕ × ℕ × ℕ × ℕ
identity s m = (s.token, s.outstanding, m.response, m.request)

-- What holds of the value, if there is one.
abbrev WhenSome {ℓ} : {A : Type ℓ} → (A → Type 0) → Option A → Type 0
WhenSome P none = Unit
WhenSome P (some a) = P a

module _ {net : Net} where
  pub consume-identity :
      (s s' : Session net) (m : Metrics) (amt : ℕ)
      → consume s amt ≡ ret s'
      → identity s' m ≡ identity s m
  unfolding consume
  consume-identity s s' m amt e = ground arith

  pub flush-identity :
      (s : Session net) (m : Metrics) (out : Io (Unit {0}) × Session net × Metrics)
      → flush s m ≡ ret out
      → identity out.1 out.2 ≡ identity s m
  unfolding flush on_write
  flush-identity s m out e = ground arith

  pub write_all-timestamp :
      (s s' : Session net) (xs : Bytes) → write_all s xs ≡ ret s' → s'.timestamp ≡ s.timestamp
  unfolding write_all write
  write_all-timestamp s s' [] e = cc
  write_all-timestamp s s' (x ∷ xs) e = ground arith

  pub flush-timestamp :
      (s : Session net) (m : Metrics) (out : Io (Unit {0}) × Session net × Metrics)
      → flush s m ≡ ret out
      → out.1.timestamp ≡ s.timestamp
  unfolding flush on_write
  flush-timestamp s m out e = ground arith

  pub write_all-identity :
      (s s' : Session net) (m : Metrics) (xs : Bytes)
      → write_all s xs ≡ ret s'
      → identity s' m ≡ identity s m
  unfolding write_all write
  write_all-identity s s' m [] e = cc
  write_all-identity s s' m (x ∷ xs) e = ground arith

  Kept : Session net → Metrics → Option (Io (Unit {0}) × Session net × Metrics) → Type 0
  Kept s m = WhenSome λ out. identity out.1 out.2 ≡ identity s m

  on_read-Kept :
      (rest : Session net → Metrics → ℕ → Option (Io (Unit {0}) × Session net × Metrics))
      (s : Session net) (m : Metrics) (total : ℕ) (answer : Io Bytes)
      → ((s' : Session net) (m' : Metrics) (n : ℕ) → Kept s' m' (rest s' m' n))
      → Kept s m (on_read rest s m total answer)
  unfolding Kept on_read
  on_read-Kept rest s m total (ok []) h = refl
  on_read-Kept rest s m total (ok (x ∷ xs)) h = h (received s (x ∷ xs)) m (total + length (x ∷ xs))
  on_read-Kept rest s m total (err would_block) h = elim (Bool-cases (total == 0)) [
    | inl e ↦ rw (e, on_read) refl
    | inr e ↦ rw (e, on_read) refl
  ]
  on_read-Kept rest s m total (err e) h = refl

  make_room-identity : (s : Session net) (m : Metrics) → identity (make_room s) m ≡ identity s m
  unfolding make_room
  make_room-identity s m = ground arith

  abbrev reply : Session net → Io Bytes × Stream.Stream net
  reply s = Stream.read (make_room s).stream (available_capacity (make_room s).read_buffer)

  fill_loop-Kept :
      (f : ℕ) (s : Session net) (m : Metrics) (total : ℕ) → Kept s m (fill_loop f s m total)
  unfolding Kept fill_loop
  fill_loop-Kept zero s m total = tt
  fill_loop-Kept (suc f) s m total = elim (Bool-cases (len s.read_buffer == s.max_capacity)) [
    | inl full ↦ rw (full, fill_loop) refl
    | inr room ↦
        rw (room, fill_loop)
          (subst
            (λ i.
              WhenSome (λ out. identity out.1 out.2 ≡ i)
                (on_read (fill_loop f) (record (make_room s) { stream = (reply s).1 }) m total
                  (reply s).0))
            (make_room-identity s m)
            (on_read-Kept (fill_loop f) (record (make_room s) { stream = (reply s).1 }) m total
              (reply s).0 (fill_loop-Kept f)))
  ]

  pub fill_buf-identity :
      (s : Session net) (m : Metrics) (out : Io (Unit {0}) × Session net × Metrics)
      → fill_buf s m ≡ some out
      → identity out.1 out.2 ≡ identity s m
  unfolding Kept fill_buf
  fill_buf-identity s m out e =
      subst (λ o. WhenSome (λ r. identity r.1 r.2 ≡ identity s m) o) e
        (fill_loop-Kept (suc s.max_capacity) s (record m { session_recv = m.session_recv + 1 }) 0)
