-- ===== src/Worker/Sessions.antt =====
-- src/worker.rs: what the calls that open, close and change a session do to the state of a worker.
use rpc_perf.Base.{
  ℕ, ◌≡◌, ◌≢◌, refl, sym, ◌∙◌, ap, subst, inl, inr, Option-cases, Option, some, none, [], ◌∷◌, ◌++◌,
  ◌⊎◌,
}
use rpc_perf.Base.Outcome.{Io, ok, err, ErrorKind, other}
use rpc_perf.Base.Progress.{Ends, unwrap}
use rpc_perf.Metrics.{closed}
use rpc_perf.Net.{Net}
use rpc_perf.Session.{Session}
use rpc_perf.Session
use rpc_perf.Session.Fields.{peer_addr, ssl_session}
use rpc_perf.Session.Calls.{
  IsProper, close-IsProper, connected-IsProper, do_handshake-IsProper, reregister-IsProper,
}
use rpc_perf.Host.{Host, Keeps}
use rpc_perf.Coder.{Coder}
use rpc_perf.Worker.{
  Worker, set_session, disconnect, requeue, connected, handshake, register, reregister,
}
use rpc_perf.Worker.Sound.{
  Names, ==_refl, IsSound, Persists, Persists-refl, Persists-trans, push-IsSound, write-Persists,
  write-Names, write-IsSound,
}

nothing_named : {A : Type 0} {a : A} → some a ≢ none
nothing_named e = cc

module _ {net : Net} {host : Host net} {coder : Coder net} where
  abbrev pub Good : Worker host coder → Type 0
  Good w = IsSound host w.sessions w.ready_queue

  -- A call has kept each session, and left the worker sound.
  pub record Advances (w w' : Worker host coder) : Type 0 where
    pub persists : Persists host w.sessions w'.sessions
    pub sound : Good w'
    pub pipeline : w'.pipeline ≡ w.pipeline

  pub Advances-trans :
      {w w' w'' : Worker host coder} → Advances w w' → Advances w' w'' → Advances w w''
  Advances-trans p q = record {
    persists = Persists-trans host _ _ _ p.persists q.persists;
    sound = q.sound;
    pipeline = q.pipeline ∙ p.pipeline;
  }

  -- The call has changed neither the sessions nor the ready queue.
  pub Advances-same :
      {w w' : Worker host coder}
      → Good w
      → w'.sessions ≡ w.sessions
      → w'.ready_queue ≡ w.ready_queue
      → w'.pipeline ≡ w.pipeline
      → Advances w w'
  Advances-same {w} {w'} g e q p = record {
    persists = subst (λ t. Persists host w.sessions t) (sym e) (Persists-refl host w.sessions);
    sound = rw (e, q) g;
    pipeline = p;
  }

  -- A token that names a session is queued.
  pub push-Advances :
      (w w' : Worker host coder) (token : ℕ)
      → Advances w w'
      → Names host w'.sessions token
      → Advances w (record w' { ready_queue = w'.ready_queue ++ (token ∷ []) })
  push-Advances w w' token p n = record {
    persists = p.persists;
    sound = push-IsSound host w'.sessions w'.ready_queue token p.sound n;
    pipeline = p.pipeline;
  }

  -- The session under the token is closed, and its address is queued once if its socket knows it.
  pub record Closed (w : Worker host coder) (token : ℕ) (s : Session net)
      (out : Io (Unit {0}) × Worker host coder) : Type 0 where
    pub answer : out.0 ≡ ok tt
    pub entry : host.get out.1.sessions token ≡ some (Session.close s)
    pub metrics : out.1.metrics ≡ closed w.metrics
    pub ready_queue : out.1.ready_queue ≡ w.ready_queue
    pub connect_queue :
        ((addr : net.Addr) × (peer_addr s ≡ ok addr)
          × (out.1.connect_queue ≡ w.connect_queue ++ ((addr, ssl_session s) ∷ [])))
        ⊎ ((e : ErrorKind) × (peer_addr s ≡ err e) × (out.1.connect_queue ≡ w.connect_queue))

  requeue-Closed :
      (w w' : Worker host coder) (token : ℕ) (s : Session net) (addr : Io net.Addr)
      → peer_addr s ≡ addr
      → host.get w'.sessions token ≡ some (Session.close s)
      → w'.metrics ≡ closed w.metrics
      → w'.ready_queue ≡ w.ready_queue
      → w'.connect_queue ≡ w.connect_queue
      → Closed w token s (ok tt, requeue w' addr (ssl_session s))
  unfolding requeue
  requeue-Closed w w' token s (ok a) p e m r c = record {
    answer = refl;
    entry = e;
    metrics = m;
    ready_queue = r;
    connect_queue = inl (a, p, ap (λ q. q ++ ((a, ssl_session s) ∷ [])) c);
  }
  requeue-Closed w w' token s (err k) p e m r c = record {
    answer = refl;
    entry = e;
    metrics = m;
    ready_queue = r;
    connect_queue = inr (k, p, c);
  }

  module _ (keeps : Keeps host) where
    -- When the slab keeps its promises, disconnect always decrements the gauge of open sessions.
    -- If the token names no session it returns an error and does nothing else. If it names one it
    -- returns Ok: the session is closed and stays in the slab, the ready queue is unchanged, and
    -- the address is queued once more, with its TLS session, when the socket still knows it.
    pub disconnect-Closed :
        (w : Worker host coder) (token : ℕ)
        → ((host.get w.sessions token ≡ none)
            × (disconnect w token ≡ (err other, record w { metrics = closed w.metrics })))
          ⊎ ((s : Session net) × (host.get w.sessions token ≡ some s)
              × Closed w token s (disconnect w token))
    unfolding disconnect set_session
    disconnect-Closed w token = elim (Option-cases (host.get w.sessions token)) [
      | inl e ↦ inl (e, rw (e, disconnect) refl)
      | inr (s, e) ↦ inr (
        s,
        e,
        rw (e, disconnect)
            (requeue-Closed w _ token s (peer_addr s) refl
              (keeps.get-set w.sessions token token s _ e ∙ rw (==_refl token) refl) refl refl
              refl),
      )
    ]

    -- The session is there, so `disconnect` succeeds.
    pub disconnect-named :
        (w : Worker host coder) (token : ℕ)
        → Names host w.sessions token
        → (disconnect w token ≡ (ok tt, (disconnect w token).1))
          × ((disconnect w token).1.metrics ≡ closed w.metrics)
    unfolding Names
    disconnect-named w token (s, e) = elim (disconnect-Closed w token) [
      | inl (n, _) ↦ absurd (nothing_named (sym e ∙ n))
      | inr (s', e', c) ↦ (ap (λ a. (a, (disconnect w token).1)) c.answer, c.metrics)
    ]

    pub set_session-Advances :
        {w w' : Worker host coder} (token : ℕ) (s s' : Session net)
        → Good w
        → host.get w.sessions token ≡ some s
        → IsProper token s'
        → w'.sessions ≡ host.set w.sessions token s'
        → w'.ready_queue ≡ w.ready_queue
        → w'.pipeline ≡ w.pipeline
        → Advances w w'
    set_session-Advances {w} {w'} token s s' g here p e q l =
        let wrote = λ (k : ℕ). keeps.get-set w.sessions token k s s' here in
        record {
          persists =
              subst (λ t. Persists host w.sessions t) (sym e)
                (write-Persists host w.sessions _ token s' wrote);
          sound = rw (e, q) (write-IsSound host w.sessions _ token s' wrote w.ready_queue g p);
          pipeline = l;
        }

    requeue-Advances :
        (w w' : Worker host coder) (addr : Io net.Addr) (ticket : Option net.SslSession)
        → Advances w w'
        → Advances w (requeue w' addr ticket)
    unfolding requeue
    requeue-Advances w w' (ok a) ticket p = Advances-trans p (Advances-same p.sound refl refl refl)
    requeue-Advances w w' (err e) ticket p = p

    pub disconnect-Advances :
        (w : Worker host coder) (token : ℕ) → Good w → Advances w (disconnect w token).1
    unfolding disconnect set_session
    disconnect-Advances w token g = elim (Option-cases (host.get w.sessions token)) [
      | inl e ↦ rw (e, disconnect) (Advances-same g refl refl refl)
      | inr (s, e) ↦
          rw (e, disconnect)
            (requeue-Advances w _ (peer_addr s) (ssl_session s) (
              set_session-Advances token s (Session.close s) g e
                (close-IsProper token s (g.proper token s e)) refl refl refl))
    ]

    pub connected-Ends :
        (w : Worker host coder) (token : ℕ)
        → Good w
        → Names host w.sessions token
        → Ends (λ w'. Advances w w' × Names host w'.sessions token) (unwrap (connected w token))
    unfolding connected set_session Names
    connected-Ends w token g (s, e) =
        rw (e, connected)
          (
            set_session-Advances token s _ g e (connected-IsProper token s (g.proper token s e))
                refl refl refl,
            write-Names host w.sessions _ token _
                (λ (k : ℕ). keeps.get-set w.sessions token k s _ e),
          )

    pub handshake-Advances :
        (w : Worker host coder) (token : ℕ) → Good w → Advances w (handshake w token).1
    unfolding handshake set_session
    handshake-Advances w token g = elim (Option-cases (host.get w.sessions token)) [
      | inl e ↦ rw (e, handshake) (Advances-same g refl refl refl)
      | inr (s, e) ↦
          rw (e, handshake)
            (set_session-Advances token s _ g e (do_handshake-IsProper token s (g.proper token s e))
              refl refl refl)
    ]

    pub register-Advances :
        (w : Worker host coder) (token : ℕ) → Good w → Advances w (register w token).1
    unfolding register
    register-Advances w token g = elim (Option-cases (host.get w.sessions token)) [
      | inl e ↦ rw (e, register) (Advances-same g refl refl refl)
      | inr (s, e) ↦ rw (e, register) (Advances-same g refl refl refl)
    ]

    pub reregister-Advances :
        (w : Worker host coder) (token : ℕ) → Good w → Advances w (reregister w token).1
    unfolding reregister set_session
    reregister-Advances w token g = elim (Option-cases (host.get w.sessions token)) [
      | inl e ↦ rw (e, reregister) (Advances-same g refl refl refl)
      | inr (s, e) ↦
          rw (e, reregister)
            (set_session-Advances token s _ g e
              (reregister-IsProper token s w.poll (g.proper token s e)) refl refl refl)
    ]
