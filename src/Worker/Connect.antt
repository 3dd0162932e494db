-- ===== src/Worker/Connect.antt =====
-- src/worker.rs: what `connect` leaves behind, in each of its ways out.
use rpc_perf.Base.{
  subst, Bool, true, false, ap, ℕ, ◌+◌, ◌≡◌, refl, inl, inr, Option, some, none, Option-cases, ◌⊎◌,
}
use rpc_perf.Base.Outcome.{Io, ok, err, ErrorKind, WhenOk, Io-cases}
use rpc_perf.Metrics.{Metrics}
use rpc_perf.Net.{Net, Handshake, established, blocked, failed}
use rpc_perf.Session.{Session}
use rpc_perf.Session.Fields.{set_token, set_timestamp}
use rpc_perf.Session.Ready.{IsReady}
use rpc_perf.Session.Calls.{
  refit-IsReady, plain_with_capacity-IsReady, tls_with_capacity-IsReady,
  handshaking_with_capacity-IsReady,
}
use rpc_perf.Host.{Host, Keeps}
use rpc_perf.Coder.{Coder}
use rpc_perf.Worker.{Worker, reuse, handshake_config, resume, establish, admit, connect}
use rpc_perf.Worker.Sound.{Names, write-Persists, write-Names, write-IsSound}
use rpc_perf.Worker.Sessions.{Good, Advances, Advances-trans, Advances-same}

Handshake-cases :
    {A B : Type 0} (h : Handshake A B)
    → ((a : A) × (h ≡ established a)) ⊎ ((b : B) × (h ≡ blocked b)) ⊎ (h ≡ failed)
Handshake-cases (established a) = inl (a, refl)
Handshake-cases (blocked b) = inr (inl (b, refl))
Handshake-cases failed = inr (inr refl)

reuse-connect : (reused : Bool) (m : Metrics) → (reuse reused m).connect ≡ m.connect
unfolding reuse
reuse-connect true m = refl
reuse-connect false m = refl

module _ {net : Net} {host : Host net} {coder : Coder net} where
  -- A session that is made is ready, and no connect is counted.
  Makes : Worker host coder → Io (Session net) × Metrics → Type 0
  Makes w (session, m) = WhenOk IsReady session × (m.connect ≡ w.metrics.connect)

  handshake_config-Makes :
      (w : Worker host coder) (config : host.ConnectConfig) (stream : net.Tcp) (now : ℕ)
      → Makes w (handshake_config w config stream now)
  unfolding handshake_config reuse Makes
  handshake_config-Makes w config stream now =
      elim (Handshake-cases (host.connect_tls config stream)) [
        | inl (t, e) ↦
            rw (e, handshake_config)
              (tls_with_capacity-IsReady t now, reuse-connect (host.tls_reused t) w.metrics)
        | inr (inl (m, e)) ↦
            rw (e, handshake_config)
              (handshaking_with_capacity-IsReady m now, reuse-connect (host.mid_reused m) w.metrics)
        | inr (inr e) ↦ rw (e, handshake_config) (tt, refl)
      ]

  resume-Makes :
      (w : Worker host coder) (config : host.ConnectConfig) (ticket : Option net.SslSession)
      (stream : net.Tcp) (now : ℕ)
      → Makes w (resume w config ticket stream now)
  unfolding resume Makes
  resume-Makes w config none stream now = handshake_config-Makes w config stream now
  resume-Makes w config (some ticket) stream now =
      elim (Io-cases (host.set_session config ticket)) [
        | inl (c, e) ↦ rw (e, resume) (handshake_config-Makes w c stream now)
        | inr (k, e) ↦ rw (e, resume) (tt, refl)
      ]

  establish-Makes :
      (w : Worker host coder) (ticket : Option net.SslSession) (stream : net.Tcp) (now : ℕ)
      → Makes w (establish w ticket stream now)
  unfolding establish Makes
  establish-Makes w ticket stream now = elim (Option-cases w.tls) [
    | inl e ↦ rw (e, establish) (plain_with_capacity-IsReady stream now, refl)
    | inr (connector, e) ↦ elim (Io-cases (host.configure connector)) [
      | inl (config, f) ↦ rw (e, f, establish) (resume-Makes w config ticket stream now)
      | inr (k, f) ↦ rw (e, f, establish) (tt, refl)
    ]
  ]

  -- `connect` has succeeded with a token that was free, and that now names a session, or has failed
  -- with the sessions as they were.
  pub record Connected (w : Worker host coder) (out : Io ℕ × Worker host coder) : Type 0 where
    pub advances : Advances w out.1
    pub queue : out.1.connect_queue ≡ w.connect_queue
    pub counted : out.1.metrics.connect ≡ w.metrics.connect + 1
    pub answer :
        ((out.0 ≡ ok (host.vacant w.sessions)) × Names host out.1.sessions (host.vacant w.sessions))
        ⊎ ((e : ErrorKind) × (out.0 ≡ err e) × (out.1.sessions ≡ w.sessions))

  admitted :
      (keeps : Keeps host) (w w₁ : Worker host coder) (s : Session net)
      → Good w
      → IsReady s
      → w₁.sessions ≡ w.sessions
      → w₁.ready_queue ≡ w.ready_queue
      → w₁.pipeline ≡ w.pipeline
      → w₁.connect_queue ≡ w.connect_queue
      → w₁.metrics.connect ≡ w.metrics.connect + 1
      → Connected w (ok (admit w₁ s).0, (admit w₁ s).1)
  unfolding admit
  admitted keeps w w₁ s g r e q l c m =
      let s' : Session net =
        set_timestamp (set_token s (host.vacant w₁.sessions)) (host.now w₁.sys).0 in
      let p : Advances w w₁ = Advances-same g e q l in
      let wrote = λ (k : ℕ). keeps.get-insert w₁.sessions s' k in
      record {
        advances = Advances-trans p (record {
          persists = write-Persists host w₁.sessions _ (host.vacant w₁.sessions) s' wrote;
          sound =
              write-IsSound host w₁.sessions _ (host.vacant w₁.sessions) s' wrote w₁.ready_queue
                p.sound (record { ready = refit-IsReady _ _ _ _ _ _ r; same = refl });
          pipeline = refl;
        });
        queue = c;
        counted = m;
        answer = inl (
          ap (λ t. ok (host.vacant t)) e,
          subst (λ t. Names host (host.insert w₁.sessions s') (host.vacant t)) e
              (write-Names host w₁.sessions _ (host.vacant w₁.sessions) s' wrote),
        );
      }

  -- When the slab keeps its promises, connect of a sound worker counts one connect, leaves the
  -- queue of addresses alone and the worker sound, and either returns a token that was free and
  -- now names a session, or returns an error with the sessions as they were.
  pub connect-Connected :
      Keeps host
      → (w : Worker host coder) (addr : net.Addr) (ticket : Option net.SslSession) → Good w
      → Connected w (connect w addr ticket)
  unfolding connect Makes
  connect-Connected keeps w addr ticket g = elim (Io-cases (host.tcp_connect addr w.sys).0) [
    | inr (k, e) ↦
        rw (e, connect)
          (record {
            advances = Advances-same g refl refl refl;
            queue = refl;
            counted = refl;
            answer = inr (k, refl, refl);
          })
    | inl (socket, e) ↦ made socket e
  ]
    where
      w₁ : Worker host coder
      w₁ = record w {
        metrics = record w.metrics { connect = w.metrics.connect + 1 };
        sys = (host.tcp_connect addr w.sys).1;
      }

      made :
          (socket : net.Tcp)
          → (host.tcp_connect addr w.sys).0 ≡ ok socket
          → Connected w (connect w addr ticket)
      made socket e =
          let now = host.now (host.tcp_connect addr w.sys).1 in
          let m = establish-Makes w₁ ticket socket now.0 in
          elim (Io-cases (establish w₁ ticket socket now.0).0) [
            | inr (k, f) ↦
                rw (e, f, connect)
                  (record {
                    advances = Advances-same g refl refl refl;
                    queue = refl;
                    counted = m.1;
                    answer = inr (k, refl, refl);
                  })
            | inl (s, f) ↦
                rw (e, f, connect)
                  (admitted keeps w _ s g (subst (λ r. WhenOk IsReady r) f m.0) refl refl refl refl
                    m.1)
          ]
