-- ===== src/Worker/Traffic/Requests.antt =====
-- src/worker.rs: what `send_request` and `do_write` do to a session and to the counters.
use rpc_perf.Base.{
  ℕ, zero, suc, ◌+◌, ◌≡◌, refl, ◌∙◌, ap, inl, inr, ◌⊎◌, arith, Bool-cases, Option-cases, some, ltb,
  if_both,
}
use rpc_perf.Base.Outcome.{ret, panic, Outcome-cases, Io, ok, err, other}
use rpc_perf.Base.Progress.{returns, panics}
use rpc_perf.Metrics.{Metrics}
use rpc_perf.Net.{Net, Fits}
use rpc_perf.Session
use rpc_perf.Session.{Session, flush, write_pending}
use rpc_perf.Session.Fields.{set_outstanding, set_timestamp}
use rpc_perf.Session.Ready.{IsReady}
use rpc_perf.Session.Calls.{refit-IsReady, reregister-IsProper, reregister-outstanding}
use rpc_perf.Session.Identity.{flush-identity}
use rpc_perf.Session.Flush.{flush-Flushed}
use rpc_perf.Host.{Host, Keeps}
use rpc_perf.Coder.{Coder, Obeys}
use rpc_perf.Worker.{Worker, set_session, reregister}
use rpc_perf.Worker.Traffic.{encode_requests, send_request, do_write}
use rpc_perf.Worker.Sound.{==_refl}
use rpc_perf.Worker.Sessions.{Good, Advances, Advances-trans, Advances-same, set_session-Advances}

-- `count` requests are counted and encoded, unless the codec panics.
record Encodes {net : Net} (coder : Coder net) (count : ℕ) (s : Session net) (m : Metrics)
    (out : (coder.State × Metrics) × Session net) : Type 0 where
  ready : IsReady out.1
  token : out.1.token ≡ s.token
  request : out.0.1.request ≡ m.request + count

encode_requests-Encodes :
    {net : Net} (coder : Coder net)
    → Obeys coder
    → (count : ℕ) (st : coder.State) (s : Session net) (m : Metrics) → IsReady s
    → ((out : (coder.State × Metrics) × Session net) × (encode_requests coder count st s m
          ≡ ret out)
        × Encodes coder count s m out)
      ⊎ (encode_requests coder count st s m ≡ panic)
unfolding encode_requests
encode_requests-Encodes coder obeys zero st s m r =
    inl (_, refl, record { ready = r; token = refl; request = omega arith })
encode_requests-Encodes coder obeys (suc n) st s m r =
    elim (Outcome-cases (coder.encode st s (record m { request = m.request + 1 }))) [
      | inr e ↦ inr (rw (e, encode_requests) refl)
      | inl (((st', m'), s'), e) ↦
          let d = obeys.encodes st st' s s' _ m' r e in
          elim (encode_requests-Encodes coder obeys n st' s' m' d.ready) [
            | inl (out, ran, k) ↦ inl (
              out,
              rw (e, encode_requests) ran,
              record {
                ready = k.ready;
                token = k.token ∙ d.token;
                request = omega (arith, k.request, d.request);
              },
            )
            | inr p ↦ inr (rw (e, encode_requests) p)
          ]
    ]

module _ {net : Net} {host : Host net} {coder : Coder net} where
  -- A call of `send_request` that has returned.
  pub record Sent (w : Worker host coder) (token count : ℕ)
      (out : Io (Unit {0}) × Worker host coder) : Type 0 where
    pub after : Session net
    pub entry : host.get out.1.sessions token ≡ some after
    pub outstanding : after.outstanding ≡ count
    pub request : out.1.metrics.request ≡ w.metrics.request + count
    pub queue : out.1.ready_queue ≡ w.ready_queue
    pub advances : Advances w out.1

  pub send_request-panics :
      (w : Worker host coder) (token count : ℕ) (s : Session net)
      → host.get w.sessions token ≡ some s
      → encode_requests coder count w.codec s w.metrics ≡ panic
      → send_request w token count ≡ panics
  unfolding send_request
  send_request-panics w token count s e p = rw (e, p, send_request) refl

  module _ (keeps : Keeps host) where
    registered_again :
        (w w' : Worker host coder) (token count : ℕ) (answer : Io (Unit {0}))
        → Sent w token count (answer, w')
        → Sent w token count (reregister w' token)
    unfolding reregister set_session
    registered_again w w' token count answer r =
        rw (r.entry, reregister)
          (record {
            after = (Session.reregister r.after w'.poll).1;
            entry =
                keeps.get-set w'.sessions token token r.after _ r.entry ∙ rw (==_refl token) refl;
            outstanding = reregister-outstanding r.after w'.poll ∙ r.outstanding;
            request = r.request;
            queue = r.queue;
            advances = Advances-trans r.advances (
                set_session-Advances keeps token r.after _ r.advances.sound r.entry
                  (reregister-IsProper token r.after w'.poll
                    (r.advances.sound.proper token r.after r.entry))
                  refl refl refl);
          })

    -- The session with its requests has been offered to the stream.
    flushed :
        Fits net
        → (w : Worker host coder) (token count : ℕ) (s : Session net)
          (encoded : (coder.State × Metrics) × Session net)
        → Good w
        → host.get w.sessions token ≡ some s
        → Encodes coder count s w.metrics encoded
        → encode_requests coder count w.codec s w.metrics ≡ ret encoded
        → (out : Io (Unit {0}) × Worker host coder) × (send_request w token count ≡ returns out)
          × Sent w token count out
    unfolding send_request set_session set_timestamp set_outstanding
    flushed fits w token count s ((st, m), s₁) g e k ran =
        let s₂ : Session net = set_timestamp (set_outstanding s₁ count) (host.now w.sys).0 in
        let (out, flew, f) = flush-Flushed fits s₂ m (refit-IsReady _ _ _ _ _ _ k.ready) in
        let i = flush-identity s₂ m out flew in
        let w' : Worker host coder =
          set_session (record w { codec = st; metrics = out.2; sys = (host.now w.sys).1 }) token
            out.1 in
        let first : Sent w token count (ok tt, w') = record {
          after = out.1;
          entry = keeps.get-set w.sessions token token s _ e ∙ rw (==_refl token) refl;
          outstanding = ap (λ x. x.1) i;
          request = ap (λ x. x.3) i ∙ k.request;
          queue = refl;
          advances =
              set_session-Advances keeps token s out.1 g e
                (record {
                  ready = f.ready;
                  same = ap (λ x. x.0) i ∙ k.token ∙ (g.proper token s e).same;
                })
                refl refl refl;
        } in
        (
          _,
          rw (e, ran, flew, send_request) refl,
          if_both (Sent w token count) (ltb 0 (write_pending out.1)) _ _
              (registered_again w w' token count (ok tt) first) first,
        )

    -- When the slab keeps its promises, the codec obeys its contract and no call of a stream
    -- handles more bytes than it is given: send_request on a session of a sound worker returns,
    -- or the encoder panics. When it returns, whatever the stream has answered, the session has
    -- exactly that many requests outstanding, they are counted, the ready queue is unchanged, and
    -- the worker is sound.
    pub send_request-Sent :
        Obeys coder
        → Fits net
        → (w : Worker host coder) (token count : ℕ) (s : Session net) → Good w
        → host.get w.sessions token ≡ some s
        → ((out : Io (Unit {0}) × Worker host coder) × (send_request w token count ≡ returns out)
            × Sent w token count out)
          ⊎ (encode_requests coder count w.codec s w.metrics ≡ panic)
    send_request-Sent obeys fits w token count s g e =
        elim (encode_requests-Encodes coder obeys count w.codec s w.metrics
          (g.proper token s e).ready) [
            | inl (out, ran, k) ↦ inl (flushed fits w token count s out g e k ran)
            | inr p ↦ inr p
          ]

    -- `do_write` returns, whatever the stream answers.
    pub do_write-Advances :
        Fits net
        → (w : Worker host coder) (token : ℕ) → Good w
        → (out : Io (Unit {0}) × Worker host coder) × (do_write w token ≡ returns out)
          × Advances w out.1
    unfolding do_write set_session
    do_write-Advances fits w token g = elim (Option-cases (host.get w.sessions token)) [
      | inl e ↦ ((err other, w), rw (e, do_write) refl, Advances-same g refl refl refl)
      | inr (s, e) ↦ elim (Bool-cases (ltb 0 (write_pending s))) [
        | inr z ↦ ((ok tt, w), rw (e, z, do_write) refl, Advances-same g refl refl refl)
        | inl z ↦
            let p = g.proper token s e in
            let (out, flew, f) = flush-Flushed fits s w.metrics p.ready in
            (
              (out.0, set_session (record w { metrics = out.2 }) token out.1),
              rw (e, z, flew, do_write) refl,
              set_session-Advances keeps token s out.1 g e
                  (record {
                    ready = f.ready;
                    same = ap (λ x. x.0) (flush-identity s w.metrics out flew) ∙ p.same;
                  })
                  refl refl refl,
            )
      ]
    ]
