-- ===== src/Worker/Turn/Serve.antt =====
-- src/worker.rs, `run`: the part of a round that serves a ready session.
use rpc_perf.Base.{
  ℕ, zero, suc, ◌+◌, ◌-◌, ◌≤◌, ◌<◌, ◌≡◌, refl, ◌∙◌, ap, subst, inl, inr, ◌⊎◌, arith, false,
  Bool-cases, Option-cases, List-cases, some, ◌∷◌, ◌==◌,
}
use rpc_perf.Base.Outcome.{panic, Io, ok, err}
use rpc_perf.Base.Progress.{Progress, returns, panics}
use rpc_perf.Metrics.{Metrics, closed}
use rpc_perf.Net.{Net, Fits}
use rpc_perf.Session.{Session}
use rpc_perf.Host.{Host, Keeps}
use rpc_perf.Coder.{Coder, Obeys}
use rpc_perf.Worker.{Worker, disconnect}
use rpc_perf.Worker.Sound.{Names, Persists, Persists-refl, AllName}
use rpc_perf.Worker.Sessions.{
  Good, Advances, Advances-trans, Advances-same, disconnect-Advances, disconnect-named,
}
use rpc_perf.Worker.Traffic.{encode_requests}
use rpc_perf.Worker.Traffic.Requests.{Sent, send_request-Sent, send_request-panics}
use rpc_perf.Worker.Turn.{permit, take_credits, credit, given_up, sent, spend, serve_next}

-- Below `pipeline`, the loop that takes credits ends: each pass but the last adds one.
record Credited {Sys : Type 0} (pipeline credits : ℕ) (p : Progress (ℕ × Sys)) : Type 0 where
  total : ℕ
  sys : Sys
  ran : p ≡ returns (total, sys)
  least : credits ≤ total
  most : total ≤ pipeline

take_credits-Credited :
    {net : Net} (host : Host net) (f : ℕ) (r : host.Limiter) (pipeline credits : ℕ) (sys : host.Sys)
    → credits < pipeline
    → pipeline - credits < f
    → Credited pipeline credits (take_credits host f r pipeline credits sys)
unfolding take_credits
take_credits-Credited host zero r pipeline credits sys h k = absurd (omega arith)
take_credits-Credited host (suc f) r pipeline credits sys h k =
    elim (Bool-cases (host.try_wait r sys).0) [
      | inr e ↦ record {
        total = credits;
        sys = (host.try_wait r sys).1;
        ran = rw (e, take_credits) refl;
        least = omega arith;
        most = omega arith;
      }
      | inl e ↦ elim (Bool-cases (credits + 1 == pipeline)) [
        | inl full ↦ record {
          total = credits + 1;
          sys = (host.try_wait r sys).1;
          ran = rw (e, full, take_credits) refl;
          least = omega arith;
          most = omega arith;
        }
        | inr more ↦
            let c =
              take_credits-Credited host f r pipeline (credits + 1) (host.try_wait r sys).1
                (ground (arith, more)) (omega arith) in
            record {
              total = c.total;
              sys = c.sys;
              ran = rw (e, more, take_credits) c.ran;
              least = omega (arith, c.least);
              most = c.most;
            }
      ]
    ]

module _ {net : Net} {host : Host net} {coder : Coder net} where
  credit-Credited :
      (w : Worker host coder) (credits : ℕ)
      → credits < w.pipeline
      → Credited w.pipeline credits (credit w credits)
  unfolding credit
  credit-Credited w credits h = elim (Option-cases w.request_ratelimit) [
    | inl e ↦ record {
      total = w.pipeline;
      sys = w.sys;
      ran = rw (e, credit) refl;
      least = omega arith;
      most = omega arith;
    }
    | inr (r, e) ↦
        let c =
          take_credits-Credited host (w.pipeline - credits + 1) r w.pipeline credits w.sys h
            (omega arith) in
        record {
          total = c.total;
          sys = c.sys;
          ran = rw (e, credit) c.ran;
          least = c.least;
          most = c.most;
        }
  ]

  -- A call that has returned the credits left, fewer than a session needs, and has left the worker
  -- sound.
  pub record Served (w : Worker host coder) (out : ℕ × Worker host coder) : Type 0 where
    pub left : out.0 < w.pipeline
    pub advances : Advances w out.1
    pub requests :
        (out.1.metrics.request ≡ w.metrics.request)
        ⊎ ((out.0 ≡ 0) × (out.1.metrics.request ≡ w.metrics.request + w.pipeline))

  -- The encoder has panicked on a session of the worker.
  pub EncoderPanics : Worker host coder → Type 0
  EncoderPanics w =
      (token : ℕ) × (s : Session net) × (host.get w.sessions token ≡ some s)
      × (encode_requests coder w.pipeline w.codec s w.metrics ≡ panic)

  module _ (keeps : Keeps host) where
    -- A request that cannot be sent ends in a `disconnect` that succeeds.
    sent-Served :
        (w : Worker host coder) (token : ℕ) (out : Io (Unit {0}) × Worker host coder)
        → 0 < w.pipeline
        → Names host w.sessions token
        → Sent w token w.pipeline out
        → (served : ℕ × Worker host coder) × (sent token out ≡ returns served) × Served w served
    unfolding sent given_up Names Persists closed
    sent-Served w token (ok u, w') pos n s = (
      (0, w'),
      refl,
      record { left = pos; advances = s.advances; requests = inr (refl, s.request) },
    )
    sent-Served w token (err e, w') pos n s =
        let (gone, metrics) = disconnect-named keeps w' token (s.advances.persists token n) in
        let a = Advances-trans s.advances (disconnect-Advances keeps w' token s.advances.sound) in
        let d : Worker host coder = (disconnect w' token).1 in
        (
          (0, record d { metrics = record d.metrics { request_ex = d.metrics.request_ex + 1 } }),
          rw (gone, sent, given_up) refl,
          record {
            left = pos;
            advances = Advances-trans a (Advances-same a.sound refl refl refl);
            requests = inr (refl, ap (λ (m : Metrics). m.request) metrics ∙ s.request);
          },
        )

    Serves : Worker host coder → Worker host coder → Progress (ℕ × Worker host coder) → Type 0
    Serves w w' p =
        ((served : ℕ × Worker host coder) × (p ≡ returns served) × Served w' served)
        ⊎ ((p ≡ panics) × EncoderPanics w)

    spend-Serves :
        Obeys coder
        → Fits net
        → (w : Worker host coder) (token total : ℕ) (sys : host.Sys) → Good w
        → Names host w.sessions token
        → 0 < w.pipeline
        → total ≤ w.pipeline
        → Serves w w (spend w token (total, sys))
    unfolding Serves EncoderPanics spend Names AllName
    spend-Serves obeys fits w token total sys g (s, e) pos most =
        elim (Bool-cases (total == w.pipeline)) [
          | inr f ↦ inl (
            (total, record w { sys = sys; ready_queue = token ∷ w.ready_queue }),
            rw (f, spend) refl,
            record {
              left = ground (arith, f, most);
              advances = record {
                persists = Persists-refl host w.sessions;
                sound = record { proper = g.proper; named = ((s, e), g.named) };
                pipeline = refl;
              };
              requests = inl refl;
            },
          )
          | inl f ↦
              elim (send_request-Sent keeps obeys fits (record w { sys = sys }) token w.pipeline s g
                e) [
                  | inr p ↦ inr (
                    rw
                        (
                          f,
                          send_request-panics (record w { sys = sys }) token w.pipeline s e p,
                          spend,
                        )
                        refl,
                    (token, s, e, p),
                  )
                  | inl (out, ran, k) ↦
                      let (served, done, v) =
                        sent-Served (record w { sys = sys }) token out pos (s, e) k in
                      inl (
                        served,
                        rw (f, ran, spend) done,
                        record {
                          left = v.left;
                          advances = alike served v.advances;
                          requests = v.requests;
                        },
                      )
                ]
        ]
      where
        alike :
            (out : ℕ × Worker host coder)
            → Advances (record w { sys = sys }) out.1
            → Advances w out.1
        alike out a = record { persists = a.persists; sound = a.sound; pipeline = a.pipeline }

    -- When the slab keeps its promises, the codec obeys its contract and no call of a stream
    -- handles more bytes than it is given: for a sound worker with fewer credits than its
    -- pipeline, the part of a round that serves a ready session returns, with the credits again
    -- below the pipeline, so that the loop that takes credits ends, with the worker sound, and
    -- with either no request counted or no credit left and as many requests counted as the
    -- pipeline has; or it panics because the encoder has panicked on one of the sessions. So the
    -- panic that the source says should not happen does not.
    pub serve_next-Served :
        Obeys coder
        → Fits net
        → (w : Worker host coder) (credits : ℕ) → Good w
        → credits < w.pipeline
        → ((served : ℕ × Worker host coder) × (serve_next credits w ≡ returns served)
            × Served w served)
          ⊎ ((serve_next credits w ≡ panics) × EncoderPanics w)
    unfolding serve_next closed Serves EncoderPanics AllName
    serve_next-Served obeys fits w credits g h = elim (List-cases w.ready_queue) [
      | inl e ↦ inl (
        (credits, w),
        simp (e, serve_next),
        record { left = h; advances = Advances-same g refl refl refl; requests = inl refl },
      )
      | inr (token, rest, e) ↦
          let named : AllName host w.sessions (token ∷ rest) =
            subst (AllName host w.sessions) e g.named in
          let (reconnect, sys) = permit host w.reconnect_ratelimit false w.sys in
          let w₁ : Worker host coder = record w { ready_queue = rest; sys = sys } in
          let g₁ : Good w₁ = record { proper = g.proper; named = named.1 } in
          elim (Bool-cases (permit host w.reconnect_ratelimit false w.sys).0) [
            | inl r ↦
                let (gone, metrics) = disconnect-named keeps w₁ token named.0 in
                let a = disconnect-Advances keeps w₁ token g₁ in
                inl (
                  (credits, (disconnect w₁ token).1),
                  rw (e, r, serve_next) refl,
                  record {
                    left = h;
                    advances = record {
                      persists = a.persists;
                      sound = a.sound;
                      pipeline = a.pipeline;
                    };
                    requests = inl (ap (λ (m : Metrics). m.request) metrics);
                  },
                )
            | inr r ↦
                let c = credit-Credited w₁ credits h in
                elim (spend-Serves obeys fits w₁ token c.total c.sys g₁ named.0 (omega (arith, h))
                  c.most) [
                    | inl (served, ran, v) ↦ inl (
                      served,
                      rw (e, r, c.ran, serve_next) ran,
                      record {
                        left = v.left;
                        advances = record {
                          persists = v.advances.persists;
                          sound = v.advances.sound;
                          pipeline = v.advances.pipeline;
                        };
                        requests = v.requests;
                      },
                    )
                    | inr (p, q) ↦ inr (rw (e, r, c.ran, serve_next) p, q)
                  ]
          ]
    ]
