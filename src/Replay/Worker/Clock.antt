-- ===== src/Replay/Worker/Clock.antt =====
-- src/replay.rs, `send_request`: the timestamp of a session, from which the latency of the response
-- is computed.
use rpc_perf.Base.{length, ◌^◌, ◌≤◌, ℕ, ◌+◌, ◌≡◌, refl, ◌∙◌, subst, inl, inr, some}
use rpc_perf.Base.Bytes.{Bytes, codes}
use rpc_perf.Base.Outcome.{Outcome, ret, panic, Outcome-cases}
use rpc_perf.Base.Progress.{returns}
use rpc_perf.Metrics.{Metrics}
use rpc_perf.Net.{Net, Fits}
use rpc_perf.Rand.{Rand, sample_bytes}
use rpc_perf.Session.{Session, write_all, flush}
use rpc_perf.Session
use rpc_perf.Session.Identity.{write_all-timestamp, flush-timestamp}
use rpc_perf.Session.Calls.{reregister-timestamp}
use rpc_perf.Writer.{W, put, pure, ◌>>=◌, ◌>>◌}
use rpc_perf.Session.Ready.{IsReady}
use rpc_perf.Session.Flush.{flush-Flushed}
use rpc_perf.Buffer.{borrow}
use rpc_perf.Replay.Requests.{text, counts, spent, replay_request}
use rpc_perf.Host.{Host, Keeps}
use rpc_perf.Replay.{Request, gets, set, add, replace, delete, store, write_request}
use rpc_perf.Replay.Worker.{Worker, put_back, send_request}
use rpc_perf.Worker.Sound.{==_refl}

-- A step of writing that leaves the timestamp alone.
abbrev Untouched {ℓ} : {net : Net} {A : Type ℓ} → Session net → Outcome (A × Session net) → Type 0
Untouched s (ret (a, s')) = s'.timestamp ≡ s.timestamp
Untouched s panic = Unit {0}

module _ {net : Net} where
  since {ℓ} :
      {A : Type ℓ} (s s' : Session net) (o : Outcome (A × Session net))
      → s'.timestamp ≡ s.timestamp
      → Untouched s' o
      → Untouched s o
  since s s' (ret (a, u)) e p = p ∙ e
  since s s' panic e p = tt

  bind-Untouched {ℓ κ} :
      {A : Type ℓ} {B : Type κ} (m : W net A) (f : A → W net B) (s : Session net)
      → Untouched s (m s)
      → ((a : A) (s' : Session net) → Untouched s' (f a s'))
      → Untouched s ((m >>= f) s)
  bind-Untouched m f s p h = elim (Outcome-cases (m s)) [
    | inl ((a, s'), e) ↦
        let q : Untouched s' (f a s') = h a s' in
        let old : s'.timestamp ≡ s.timestamp = subst (Untouched s) e p in
        rw (e, ◌>>=◌) (since s s' (f a s') old q)
    | inr e ↦ rw (e, ◌>>=◌) tt
  ]

  put-Untouched : (bytes : Bytes) (s : Session net) → Untouched s (put bytes s)
  unfolding put
  put-Untouched bytes s = elim (Outcome-cases (write_all s bytes)) [
    | inl (s', e) ↦ rw (e, put) (write_all-timestamp s s' bytes e)
    | inr e ↦ rw (e, put) tt
  ]

  last-Untouched {ℓ} :
      {A : Type ℓ} (bytes : Bytes) (a : A) (s : Session net) → Untouched s ((put bytes >> pure a) s)
  last-Untouched bytes a s =
      bind-Untouched (put bytes) (λ u. pure a) s (put-Untouched bytes s) (λ u s'. refl)

  module _ (rand : Rand) (rng : rand.Rng) (s : Session net) where
    store-Untouched :
        (name key : Bytes) (vlen ttl : ℕ) (m : Metrics)
        → Untouched {A = rand.Rng × Metrics} s
            ((do rng' ← store rand net name key vlen ttl rng; pure (rng', m)) s)
    unfolding store
    store-Untouched name key vlen ttl m =
        bind-Untouched (store rand net name key vlen ttl rng) (λ rng'. pure (rng', m)) s
          (bind-Untouched (put _) _ s (put-Untouched _ s) (λ u s₁.
            bind-Untouched (put _) _ s₁ (put-Untouched _ s₁) (λ u s₂. last-Untouched _ _ s₂)))
          (λ a s'. refl)

    write_request-Untouched :
        (request : Request) (m : Metrics) → Untouched s (write_request rand net request rng m s)
    unfolding write_request
    write_request-Untouched (Request.get key) m = last-Untouched _ _ s
    write_request-Untouched (gets key) m = last-Untouched _ _ s
    write_request-Untouched (set key vlen ttl) m = store-Untouched (codes "set ") key vlen ttl m
    write_request-Untouched (add key vlen ttl) m = store-Untouched (codes "add ") key vlen ttl m
    write_request-Untouched (replace key vlen ttl) m =
        store-Untouched (codes "replace ") key vlen ttl m
    write_request-Untouched (delete key) m = last-Untouched _ _ s

-- The session under a token after a call, with the timestamp that it had.
pub record Undated {net : Net} (host : Host net) (token since : ℕ) (sessions : host.Slab)
    : Type 0 where
  pub after : Session net
  pub entry : host.get sessions token ≡ some after
  pub timestamp : after.timestamp ≡ since

-- When the slab keeps its promises and no call of a stream takes more bytes than it is given,
-- send_request of the replay program on a ready session with room for the request returns, and
-- leaves the timestamp of the session as it was.
pub send_request-Undated :
    {net : Net} {host : Host net} {rand : Rand}
    → Keeps host
    → Fits net
    → (w : Worker host rand) (token : ℕ) (request : Request) (s : Session net)
    → host.get w.sessions token ≡ some s
    → IsReady s
    → length (borrow s.write_buffer) + length (text (λ n. (sample_bytes rand n w.rng).0) request)
      ≤ 2 ^ 62
    → (w' : Worker host rand) × (send_request w token request ≡ returns w')
      × Undated host token s.timestamp w'.sessions
unfolding send_request put_back
send_request-Undated {net} {host} {rand} keeps fits w token request s e r h =
    let m : Metrics = record w.metrics { request = w.metrics.request + 1 } in
    let emitted = replay_request rand net w.rng request m s r h in
    let s₁ = emitted.after in
    let wrote : s₁.timestamp ≡ s.timestamp =
      subst (Untouched s) emitted.returns (write_request-Untouched rand w.rng s request m) in
    let (out, flew, _) = flush-Flushed fits s₁ (counts request m) emitted.wrote.ready in
    (
      put_back
          (record w {
            poll = (Session.reregister out.1 w.poll).2;
            rng = spent rand request w.rng;
            metrics = out.2;
          })
          token (Session.reregister out.1 w.poll).1,
      rw (e, emitted.returns, flew, send_request) refl,
      record {
        after = (Session.reregister out.1 w.poll).1;
        entry = keeps.get-set w.sessions token token s _ e ∙ rw (==_refl token) refl;
        timestamp =
            reregister-timestamp out.1 w.poll
            ∙ flush-timestamp s₁ (counts request m) out flew
            ∙ wrote;
      },
    )
