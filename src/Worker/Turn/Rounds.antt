-- ===== src/Worker/Turn/Rounds.antt =====
-- src/worker.rs, `run`: the rounds of the loop, one after the other.
use rpc_perf.Base.{ℕ, ◌<◌, ◌≡◌, refl, subst, inl, inr, arith, true, Bool-cases, List-cases, List}
use rpc_perf.Base.Outcome.{Io, ok, err}
use rpc_perf.Base.Progress.{returns, After, After-bind, After-of_Ends}
use rpc_perf.Net.{Net, Fits}
use rpc_perf.Host.{Host, Keeps}
use rpc_perf.Coder.{Coder, Obeys}
use rpc_perf.Worker.{Worker, connect}
use rpc_perf.Worker.Sessions.{Good, Advances, Advances-trans, Advances-same, register-Advances}
use rpc_perf.Worker.Connect.{connect-Connected}
use rpc_perf.Worker.Turn.{Event, permit, must, join, connect_next, on_events, turn}
use rpc_perf.Worker.Turn.Serve.{serve_next-Served}
use rpc_perf.Worker.Turn.Events.{AllNamed, AllNamed-Advances, on_events-Ends}

module _ {net : Net} {host : Host net} {coder : Coder net} where
  must-After :
      (w : Worker host coder) (out : Io (Unit {0}) × Worker host coder)
      → Advances w out.1
      → After (Advances w) (must out)
  unfolding must
  must-After w (ok u, w') a = a
  must-After w (err e, w') a = tt

  -- The worker and the credits after some of the rounds, whatever the events of each have been.
  pub data Reach (f : ℕ) (start : ℕ × Worker host coder) : ℕ × Worker host coder → Type 0 where
    begun : Reach f start start
    round :
        (credits credits' : ℕ) (w w' : Worker host coder) (events : List Event)
        → Reach f start (credits, w)
        → AllNamed w events
        → turn f credits w events ≡ returns (credits', w')
        → Reach f start (credits', w')

  module _ (keeps : Keeps host) where
    join-After :
        (w : Worker host coder) (out : Io ℕ × Worker host coder)
        → Advances w out.1
        → After (Advances w) (join out)
    unfolding join
    join-After w (ok token, w') a =
        must-After w _ (Advances-trans a (register-Advances keeps w' token a.sound))
    join-After w (err e, w') a = a

    connect_next-After : (w : Worker host coder) → Good w → After (Advances w) (connect_next w)
    unfolding connect_next
    connect_next-After w g = elim (List-cases w.connect_queue) [
      | inl e ↦
          let idle : connect_next w ≡ returns w = simp (e, connect_next) in
          rw idle (Advances-same g refl refl refl)
      | inr ((addr, ticket), rest, e) ↦
          let (allowed, sys) = permit host w.connect_ratelimit true w.sys in
          let w₁ : Worker host coder = record w { connect_queue = rest; sys = sys } in
          let c = (connect-Connected keeps w₁ addr ticket g).advances in
          elim (Bool-cases allowed) [
            | inl r ↦
                let tried : connect_next w ≡ join (connect w₁ addr ticket) =
                  simp (e, r, connect_next) in
                rw tried (
                  join-After w (connect w₁ addr ticket)
                    (record { persists = c.persists; sound = c.sound; pipeline = c.pipeline }))
            | inr r ↦
                let held : connect_next w ≡ returns (record w { sys = sys }) =
                  simp (e, r, connect_next) in
                rw held (Advances-same g refl refl refl)
          ]
    ]

    -- What a round keeps.
    Kept : Worker host coder → ℕ × Worker host coder → Type 0
    Kept w out = (out.0 < out.1.pipeline) × Advances w out.1

    turn-After :
        Obeys coder
        → Fits net
        → (f credits : ℕ) (w : Worker host coder) (events : List Event) → Good w
        → credits < w.pipeline
        → AllNamed w events
        → After (Kept w) (turn f credits w events)
    unfolding turn Kept
    turn-After obeys fits f credits w events g h n =
        After-bind (Advances w) (Kept w) (connect_next w) _ (connect_next-After w g) (λ w₁ a.
          elim (serve_next-Served keeps obeys fits w₁ credits a.sound (omega (arith, a.pipeline))) [
            | inr (p, _) ↦ rw p tt
            | inl ((c, w₂), ran, v) ↦
                let b = Advances-trans a v.advances in
                rw ran (
                  After-bind (Advances w₂) (Kept w) (on_events f w₂ events) _
                    (After-of_Ends (Advances w₂) _ (
                      on_events-Ends keeps obeys fits f w₂ events b.sound
                        (AllNamed-Advances w w₂ events b n)))
                    (λ w₃ d.
                      (omega (arith, v.left, v.advances.pipeline, d.pipeline), Advances-trans b d)))
          ])

    -- When the slab keeps its promises, the codec obeys its contract and no call of a stream
    -- handles more bytes than it is given: over any number of rounds of run, each with events
    -- whose tokens name sessions, from a sound worker and with fewer credits than its pipeline,
    -- the worker stays sound (each session is ready and stands under its own token, and each
    -- token in the ready queue names a session), no session is ever removed from the slab, the
    -- pipeline is unchanged, and the credits stay below it.
    pub Reach-Kept :
        Obeys coder
        → Fits net
        → (f credits₀ : ℕ) (w₀ : Worker host coder) → Good w₀
        → credits₀ < w₀.pipeline
        → (credits : ℕ) (w : Worker host coder) → Reach f (credits₀, w₀) (credits, w)
        → (credits < w.pipeline) × Advances w₀ w
    unfolding Kept
    Reach-Kept obeys fits f credits₀ w₀ g h credits w begun = (h, Advances-same g refl refl refl)
    Reach-Kept obeys fits f credits₀ w₀ g h credits w (round c c' w₁ w₂ events r n e) =
        let (left, a) = Reach-Kept obeys fits f credits₀ w₀ g h c w₁ r in
        let kept : Kept w₁ (c', w₂) =
          subst (After (Kept w₁)) e (turn-After obeys fits f c w₁ events a.sound left n) in
        (kept.0, Advances-trans a kept.1)
