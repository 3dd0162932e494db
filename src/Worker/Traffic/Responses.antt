-- ===== src/Worker/Traffic/Responses.antt =====
-- src/worker.rs, `do_read`: the loop over the responses.
use rpc_perf.Base.{
  ℕ, zero, suc, ◌+◌, ◌-◌, ◌≤◌, ◌<◌, ◌≡◌, ◌≢◌, refl, ◌∙◌, ap, inl, inr, ◌⊎◌, arith, true, false,
  Bool-cases, Option-cases, ◌==◌, ==_iff,
}
use rpc_perf.Base.Outcome.{ret}
use rpc_perf.Base.Progress.{returns}
use rpc_perf.Metrics.{Metrics}
use rpc_perf.Net.{Net}
use rpc_perf.Session.{Session}
use rpc_perf.Session.Fields.{set_outstanding}
use rpc_perf.Session.Ready.{IsReady}
use rpc_perf.Session.Calls.{refit-IsReady}
use rpc_perf.Reply.{Reply, accepted, refused, incomplete, error, unknown}
use rpc_perf.Host.{Host}
use rpc_perf.Coder.{Coder, Obeys}
use rpc_perf.Worker.{Worker}
use rpc_perf.Worker.Traffic.{record_latency, Ending, drained, waiting, broken, take_responses}

module _ {net : Net} {host : Host net} {coder : Coder net} where
  -- What the loop may not touch, while it counts responses and records latencies.
  pub record Alike (w w' : Worker host coder) : Type 0 where
    pub sessions : w'.sessions ≡ w.sessions
    pub ready_queue : w'.ready_queue ≡ w.ready_queue
    pub pipeline : w'.pipeline ≡ w.pipeline

  record_latency-Alike :
      (w : Worker host coder) (since : ℕ)
      → Alike w (record_latency w since) × ((record_latency w since).metrics ≡ w.metrics)
  unfolding record_latency
  record_latency-Alike w since = elim (Option-cases w.request_heatmap) [
    | inl e ↦
        rw (e, record_latency)
          (record { sessions = refl; ready_queue = refl; pipeline = refl }, refl)
    | inr (h, e) ↦
        rw (e, record_latency)
          (record { sessions = refl; ready_queue = refl; pipeline = refl }, refl)
  ]

  -- What the loop has come to: each response that it counts is one less outstanding, and it has ended
  -- by itself when none is.
  pub record Taken (s : Session net) (w : Worker host coder)
      (out : Ending × Session net × Worker host coder) : Type 0 where
    pub ready : IsReady out.1
    pub token : out.1.token ≡ s.token
    pub alike : Alike w out.2
    pub conserved : out.1.outstanding + out.2.metrics.response ≡ s.outstanding + w.metrics.response
    pub ended :
        ((out.0 ≡ drained) × (out.1.outstanding ≡ 0))
        ⊎ ((out.0 ≢ drained) × (0 < out.1.outstanding))

  unfoldable pub Finishes : ℕ → Worker host coder → Session net → Type 0
  Finishes f w s =
      (out : Ending × Session net × Worker host coder) × (take_responses f w s ≡ returns out)
      × Taken s w out

  stopped :
      (w : Worker host coder) (s : Session net) (ending : Ending) (s' : Session net) (m : Metrics)
      → ending ≢ drained
      → (s.outstanding == 0) ≡ false
      → IsReady s'
      → s'.outstanding ≡ s.outstanding
      → s'.token ≡ s.token
      → m.response ≡ w.metrics.response
      → Taken s w (ending, s', record w { metrics = m })
  stopped w s ending s' m n e r' o t c = record {
    ready = r';
    token = t;
    alike = record { sessions = refl; ready_queue = refl; pipeline = refl };
    conserved = omega (arith, o, c);
    ended = inr (n, ground (arith, e, o));
  }

  -- One pass of the loop; `again` is what is known of the rest of it.
  answered :
      (f : ℕ) (w : Worker host coder) (s : Session net)
      → ((w' : Worker host coder) (s' : Session net)
          → IsReady s'
          → s'.outstanding ≤ f
          → Finishes f w' s')
      → s.outstanding ≤ suc f
      → (reply : Reply) (s' : Session net) (m : Metrics) → (s.outstanding == 0) ≡ false
      → coder.decode s w.metrics ≡ ret (reply, s', m)
      → IsReady s'
      → s'.outstanding ≡ s.outstanding
      → s'.token ≡ s.token
      → m.response ≡ w.metrics.response
      → Finishes (suc f) w s
  unfolding Finishes take_responses set_outstanding
  answered f w s again h (refused incomplete) s' m e d r' o t c =
      (_, rw (e, d, take_responses) refl, stopped w s waiting s' m (λ x. cc) e r' o t c)
  answered f w s again h (refused error) s' m e d r' o t c =
      (_, rw (e, d, take_responses) refl, stopped w s broken s' m (λ x. cc) e r' o t c)
  answered f w s again h (refused unknown) s' m e d r' o t c =
      (_, rw (e, d, take_responses) refl, stopped w s broken s' m (λ x. cc) e r' o t c)
  answered f w s again h accepted s' m e d r' o t c =
      let pos : 0 < s.outstanding = ground (arith, e) in
      let w₁ : Worker host coder = record w { metrics = record m { response = m.response + 1 } } in
      let (same, counts) = record_latency-Alike w₁ s'.timestamp in
      let s₁ : Session net = set_outstanding s' (s'.outstanding - 1) in
      let (out, ran, k) =
        again (record_latency w₁ s'.timestamp) s₁ (refit-IsReady _ _ _ _ _ _ r')
          (omega (arith, h, o)) in
      (
        out,
        rw (e, d, take_responses) ran,
        record {
          ready = k.ready;
          token = k.token ∙ t;
          alike = record {
            sessions = k.alike.sessions ∙ same.sessions;
            ready_queue = k.alike.ready_queue ∙ same.ready_queue;
            pipeline = k.alike.pipeline ∙ same.pipeline;
          };
          conserved =
              omega (arith, k.conserved, ap (λ (x : Metrics). x.response) counts, o, c, pos);
          ended = k.ended;
        },
      )

  pub take_responses-Taken :
      Obeys coder
      → (f : ℕ) (w : Worker host coder) (s : Session net) → IsReady s
      → s.outstanding ≤ f
      → Finishes f w s
  unfolding Finishes take_responses
  take_responses-Taken obeys zero w s r h =
      let e : (s.outstanding == 0) ≡ true = (==_iff _ 0).1 (omega arith) in
      (
        (drained, s, w),
        rw (e, take_responses) refl,
        record {
          ready = r;
          token = refl;
          alike = record { sessions = refl; ready_queue = refl; pipeline = refl };
          conserved = refl;
          ended = inl (refl, omega arith);
        },
      )
  take_responses-Taken obeys (suc f) w s r h = elim (Bool-cases (s.outstanding == 0)) [
    | inl e ↦ (
      (drained, s, w),
      rw (e, take_responses) refl,
      record {
        ready = r;
        token = refl;
        alike = record { sessions = refl; ready_queue = refl; pipeline = refl };
        conserved = refl;
        ended = inl (refl, (==_iff _ 0).0 e);
      },
    )
    | inr e ↦
        let d = obeys.decodes s w.metrics r in
        answered f w s (take_responses-Taken obeys f) h d.reply d.after d.counters e d.returns
          d.ready d.outstanding d.token d.response
  ]
