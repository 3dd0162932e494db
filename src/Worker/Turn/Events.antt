-- ===== src/Worker/Turn/Events.antt =====
-- src/worker.rs, `run`: what the events of a round do to the state of a worker.
use rpc_perf.Base.{
  ℕ, ◌+◌, ◌≡◌, refl, inl, inr, Bool, true, false, not, ◌&&◌, Bool-cases, Option-cases, Option, some,
  none, List, [], ◌∷◌, ◌++◌, if◌then◌else◌,
}
use rpc_perf.Base.Outcome.{Io, ok, err, would_block}
use rpc_perf.Base.Progress.{Progress, returns, unwrap, Ends, Ends-bind, Ends-weaken}
use rpc_perf.Metrics.{opened}
use rpc_perf.Net.{Net, Fits}
use rpc_perf.Session.{Session}
use rpc_perf.Session
use rpc_perf.Session.Fields
use rpc_perf.Host.{Host, Keeps}
use rpc_perf.Coder.{Coder, Obeys}
use rpc_perf.Worker.{Worker, is_connecting, is_handshaking, handshake, connected, timestamp}
use rpc_perf.Worker.Sound.{Names, Persists}
use rpc_perf.Worker.Sessions.{
  Good, Advances, Advances-trans, Advances-same, push-Advances, disconnect-Advances, connected-Ends,
  handshake-Advances, reregister-Advances,
}
use rpc_perf.Worker.Traffic.Reads.{Interrupted-runs_out, do_read-Read}
use rpc_perf.Worker.Traffic.Requests.{do_write-Advances}
use rpc_perf.Worker.Turn.{
  Event, refuse, shaken, settled, shake, record_connect, greet, close_on_error, on_readable,
  on_writable, on_error, continue, on_event, on_events,
}

module _ {net : Net} {host : Host net} {coder : Coder net} where
  -- A token that names a session has an answer to each question about it.
  asked-Ends :
      (w : Worker host coder) (token : ℕ)
      → Names host w.sessions token
      → ((b : Bool) × (is_connecting w token ≡ some b))
        × ((b : Bool) × (is_handshaking w token ≡ some b))
  unfolding Names is_connecting is_handshaking
  asked-Ends w token (s, e) = (
    (Session.is_connecting s, rw (e, is_connecting) refl),
    (Fields.is_handshaking s, rw (e, is_handshaking) refl),
  )

  record_connect-Advances :
      (w : Worker host coder) (since : Option ℕ) → Good w → Advances w (record_connect w since)
  unfolding record_connect
  record_connect-Advances w none g = Advances-same g refl refl refl
  record_connect-Advances w (some prev) g = elim (Option-cases w.connect_heatmap) [
    | inl e ↦ rw (e, record_connect) (Advances-same g refl refl refl)
    | inr (h, e) ↦ rw (e, record_connect) (Advances-same g refl refl refl)
  ]

  named_after :
      (w w' : Worker host coder) (token : ℕ)
      → Names host w.sessions token
      → Advances w w'
      → Names host w'.sessions token
  unfolding Persists
  named_after w w' token n a = a.persists token n

  -- The tokens of the events name sessions.
  unfoldable pub AllNamed : Worker host coder → List Event → Type 0
  AllNamed w [] = Unit {0}
  AllNamed w (event ∷ events) = Names host w.sessions event.token × AllNamed w events

  pub AllNamed-Advances :
      (w w' : Worker host coder) (events : List Event)
      → Advances w w'
      → AllNamed w events
      → AllNamed w' events
  unfolding AllNamed
  AllNamed-Advances w w' [] a n = tt
  AllNamed-Advances w w' (event ∷ events) a (n, ns) =
      (named_after w w' event.token n a, AllNamed-Advances w w' events a ns)

  module _ (keeps : Keeps host) where
    refuse-Advances : (w : Worker host coder) (token : ℕ) → Good w → Advances w (refuse w token)
    unfolding refuse
    refuse-Advances w token g =
        let m = w.metrics in
        let w₁ : Worker host coder = record w {
          metrics = record m { connect_ex = m.connect_ex + 1 };
        } in
        let p : Advances w w₁ = Advances-same g refl refl refl in
        Advances-trans p (disconnect-Advances keeps w₁ token p.sound)

    shaken-Advances :
        (w : Worker host coder) (token : ℕ) (answer : Io (Unit {0}))
        → Good w
        → Advances w (shaken token (answer, w))
    unfolding shaken
    shaken-Advances w token (ok u) g = Advances-same g refl refl refl
    shaken-Advances w token (err would_block) g = Advances-same g refl refl refl
    shaken-Advances w token (err e) g = refuse-Advances w token g

    settled-Advances : (w : Worker host coder) (token : ℕ) → Good w → Advances w (settled w token).1
    unfolding settled
    settled-Advances w token g = elim (Option-cases (is_handshaking w token)) [
      | inl e ↦ rw (e, settled) (refuse-Advances w token g)
      | inr (true, e) ↦ rw (e, settled) (reregister-Advances keeps w token g)
      | inr (false, e) ↦ rw (e, settled) (Advances-same g refl refl refl)
    ]

    shake-Advances : (w : Worker host coder) (token : ℕ) → Good w → Advances w (shake w token).1
    unfolding shake
    shake-Advances w token g = elim (Option-cases (is_handshaking w token)) [
      | inl e ↦ rw (e, shake) (Advances-same g refl refl refl)
      | inr (false, e) ↦ rw (e, shake) (Advances-same g refl refl refl)
      | inr (true, e) ↦
          let p = handshake-Advances keeps w token g in
          let q = shaken-Advances (handshake w token).1 token (handshake w token).0 p.sound in
          rw (e, shake) (Advances-trans p (Advances-trans q (settled-Advances _ token q.sound)))
    ]

    close_on_error-Advances :
        (w w' : Worker host coder) (token : ℕ) (answer : Io (Unit {0}))
        → Advances w w'
        → Advances w (close_on_error token (answer, w')).1
    unfolding close_on_error
    close_on_error-Advances w w' token (ok u) p = p
    close_on_error-Advances w w' token (err e) p =
        Advances-trans p (disconnect-Advances keeps w' token p.sound)

    greet-Ends :
        (w : Worker host coder) (token : ℕ)
        → Good w
        → Names host w.sessions token
        → Ends (Advances w) (greet w token)
    unfolding greet Persists
    greet-Ends w token g n =
        Ends-bind (λ w'. Advances w w' × Names host w'.sessions token) (Advances w)
          (unwrap (connected w token)) _ (connected-Ends keeps w token g n)
          (λ w₁ (p, n₁). joined w₁ p n₁)
      where
        joined :
            (w₁ : Worker host coder)
            → Advances w w₁
            → Names host w₁.sessions token
            → Advances w (
                let w₂ : Worker host coder = record w₁ {
                  metrics = record (opened w₁.metrics) { session = w₁.metrics.session + 1 };
                } in
                let w₃ : Worker host coder = record_connect w₂ (timestamp w₂ token) in
                record w₃ { ready_queue = w₃.ready_queue ++ (token ∷ []) })
        joined w₁ p n₁ =
            let w₂ : Worker host coder = record w₁ {
              metrics = record (opened w₁.metrics) { session = w₁.metrics.session + 1 };
            } in
            let q : Advances w₁ w₂ = Advances-same p.sound refl refl refl in
            let r = record_connect-Advances w₂ (timestamp w₂ token) q.sound in
            push-Advances w _ token (Advances-trans p (Advances-trans q r)) (r.persists token n₁)

    -- What a handler leaves behind, with or without the event being done with.
    Left : Worker host coder → Bool × Worker host coder → Type 0
    Left w out = Advances w out.1

    on_readable-Ends :
        Obeys coder
        → Fits net
        → (f : ℕ) (w : Worker host coder) (token : ℕ) → Good w
        → Names host w.sessions token
        → Ends (Left w) (on_readable f w token)
    unfolding on_readable Names Left
    on_readable-Ends obeys fits f w token g (s, e) =
        elim (do_read-Read keeps obeys fits f w token s g e) [
          | inl (out, ran, r) ↦
              rw (ran, on_readable) (close_on_error-Advances w out.1 token out.0 r.advances)
          | inr k ↦ rw (Interrupted-runs_out f w token k, on_readable) tt
        ]

    on_writable-Ends :
        Fits net
        → (w : Worker host coder) (token : ℕ) → Good w
        → Names host w.sessions token
        → Ends (Left w) (on_writable w token)
    unfolding on_writable Left
    on_writable-Ends fits w token g n =
        let ((connecting, c), (handshaking, h)) = asked-Ends w token n in
        rw (c, h, on_writable)
          (Ends-bind (Advances w) (Left w) _ _ (counted connecting handshaking) (λ w₁ p.
            let (out, ran, q) = do_write-Advances keeps fits w₁ token p.sound in
            rw ran (close_on_error-Advances w out.1 token out.0 (Advances-trans p q))))
      where
        counted :
            (connecting handshaking : Bool)
            → Ends (Advances w) (
                if connecting && not handshaking
                then greet w token
                else returns (if connecting then record w { metrics = opened w.metrics } else w))
        counted true true = Advances-same g refl refl refl
        counted true false = greet-Ends w token g n
        counted false handshaking = Advances-same g refl refl refl

    on_error-Ends :
        (w : Worker host coder) (token : ℕ)
        → Good w
        → Names host w.sessions token
        → Ends (Advances w) (on_error w token)
    unfolding on_error
    on_error-Ends w token g n =
        let ((connecting, c), _) = asked-Ends w token n in
        let p = counted connecting in
        rw (c, on_error) (Advances-trans p (disconnect-Advances keeps _ token p.sound))
      where
        counted :
            (connecting : Bool)
            → Advances w (
                if connecting
                then record w {
                  metrics = record w.metrics { connect_ex = w.metrics.connect_ex + 1 };
                }
                else w)
        counted true = Advances-same g refl refl refl
        counted false = Advances-same g refl refl refl

    continue-Ends :
        (w : Worker host coder) (out : Bool × Worker host coder)
        (next : Worker host coder → Progress (Bool × Worker host coder))
        → Left w out
        → ((w' : Worker host coder) → Advances w w' → Ends (Left w) (next w'))
        → Ends (Left w) (continue out next)
    unfolding continue Left
    continue-Ends w (true, w') next p h = h w' p
    continue-Ends w (false, w') next p h = p

    -- A handler is called after a part of the event, if it is asked for.
    handled :
        (w w' : Worker host coder) (asked : Bool) (p : Progress (Bool × Worker host coder))
        → Advances w w'
        → Ends (Left w') p
        → Ends (Left w) (if asked then p else returns (true, w'))
    unfolding Left
    handled w w' true p a e = Ends-weaken (Left w') (Left w) p (λ out b. Advances-trans a b) e
    handled w w' false p a e = a

    -- When the slab keeps its promises, the codec obeys its contract and no call of a stream
    -- handles more bytes than it is given: an event whose token names a session of a sound worker
    -- is handled without a panic, whatever the handshake, the reads and the writes of the session
    -- come to, unless the fuel for interrupted reads runs out: the worker is sound afterwards,
    -- and has lost no session.
    pub on_event-Ends :
        Obeys coder
        → Fits net
        → (f : ℕ) (w : Worker host coder) (event : Event) → Good w
        → Names host w.sessions event.token
        → Ends (Advances w) (on_event f w event)
    unfolding on_event Left
    on_event-Ends obeys fits f w event g n = elim (Bool-cases event.is_error) [
      | inl e ↦ rw (e, on_event) (on_error-Ends w event.token g n)
      | inr e ↦
          rw (e, on_event)
            (Ends-bind (Left w) (Advances w) _ _
              (continue-Ends w (shake w event.token) _ (shake-Advances w event.token g) (λ w' a.
                handled w w' event.is_readable _ a (
                  on_readable-Ends obeys fits f w' event.token a.sound
                    (named_after w w' event.token n a))))
              (λ read r.
                Ends-bind (Left w) (Advances w) _ _
                  (continue-Ends w read _ r (λ w' a. handled w w' event.is_writable _ a (
                    on_writable-Ends fits w' event.token a.sound
                      (named_after w w' event.token n a))))
                  (λ written s.
                    Ends-bind (Left w) (Advances w) _ _
                      (continue-Ends w written _ s (λ w' a.
                        Advances-trans a (reregister-Advances keeps w' event.token a.sound)))
                      (λ out u. u))))
    ]

    pub on_events-Ends :
        Obeys coder
        → Fits net
        → (f : ℕ) (w : Worker host coder) (events : List Event) → Good w
        → AllNamed w events
        → Ends (Advances w) (on_events f w events)
    unfolding on_events AllNamed
    on_events-Ends obeys fits f w [] g n = Advances-same g refl refl refl
    on_events-Ends obeys fits f w (event ∷ events) g (n, ns) =
        Ends-bind (Advances w) (Advances w) (on_event f w event) _
          (on_event-Ends obeys fits f w event g n)
          (λ w' a.
            Ends-weaken (Advances w') (Advances w) _ (λ w'' b. Advances-trans a b)
              (on_events-Ends obeys fits f w' events a.sound (AllNamed-Advances w w' events a ns)))
