-- ===== src/Worker/Traffic/Reads.antt =====
-- src/worker.rs, `do_read`: the reads, those that are tried again included, and what is done with
-- the responses.
use rpc_perf.Base.{
  ℕ, zero, suc, ◌+◌, ◌<◌, ◌≡◌, ◌≢◌, refl, ◌∙◌, ap, subst, inl, inr, ◌⊎◌, arith, Bool-cases, some,
  [], ◌∷◌, ◌++◌, ◌==◌,
}
use mathlib.Core.Path.{ap₂}
use mathlib.Core.List.{List}
use rpc_perf.Base.Outcome.{
  Io, ok, err, would_block, interrupted, not_connected, invalid_data, other, os,
}
use rpc_perf.Base.Progress.{Progress, returns, runs_out}
use rpc_perf.Metrics.{Metrics}
use rpc_perf.Net.{Net, Fits}
use rpc_perf.Session
use rpc_perf.Session.{Session, fill_buf, read_pending}
use rpc_perf.Session.Ready.{IsReady}
use rpc_perf.Session.Calls.{reregister-IsProper, reregister-outstanding}
use rpc_perf.Session.Identity.{identity, fill_buf-identity}
use rpc_perf.Session.Fill.{fill_buf-Refilled}
use rpc_perf.Host.{Host, Keeps}
use rpc_perf.Coder.{Coder, Obeys}
use rpc_perf.Worker.{Worker, set_session, reregister}
use rpc_perf.Worker.Sound.{Names, ==_refl}
use rpc_perf.Worker.Traffic.{Ending, drained, waiting, broken, settle, after_fill, do_read}
use rpc_perf.Worker.Sessions.{Good, Advances, Advances-trans, set_session-Advances, push-Advances}
use rpc_perf.Worker.Traffic.Responses.{Alike, Taken, Finishes, take_responses-Taken}

ErrorKind-cases : (answer : Io (Unit {0})) → (answer ≡ err interrupted) ⊎ (answer ≢ err interrupted)
ErrorKind-cases (ok u) = inr (λ x. cc)
ErrorKind-cases (err would_block) = inr (λ x. cc)
ErrorKind-cases (err interrupted) = inl refl
ErrorKind-cases (err not_connected) = inr (λ x. cc)
ErrorKind-cases (err invalid_data) = inr (λ x. cc)
ErrorKind-cases (err other) = inr (λ x. cc)
ErrorKind-cases (err (os n)) = inr (λ x. cc)

some_left :
    (ending : Ending) (left before : ℕ)
    → ending ≢ drained
    → ((ending ≡ drained) × (left ≡ 0)) ⊎ ((ending ≢ drained) × (0 < left))
    → (0 < left) ⊎ (left ≡ before)
some_left ending left before n (inl (d, _)) = absurd (n d)
some_left ending left before n (inr (_, l)) = inl l

module _ {net : Net} {host : Host net} {coder : Coder net} where
  -- A call of `do_read` that has returned: each response that it has counted is one less outstanding
  -- for its session, and the token is queued exactly when the responses are all there.
  pub record Read (w : Worker host coder) (token : ℕ) (s : Session net)
      (out : Io (Unit {0}) × Worker host coder) : Type 0 where
    pub after : Session net
    pub entry : host.get out.1.sessions token ≡ some after
    pub conserved : after.outstanding + out.1.metrics.response ≡ s.outstanding + w.metrics.response
    pub queue :
        ((out.1.ready_queue ≡ w.ready_queue ++ (token ∷ []))
          × (out.0 ≡ ok tt)
          × (after.outstanding ≡ 0))
        ⊎ ((out.1.ready_queue ≡ w.ready_queue)
            × ((0 < after.outstanding) ⊎ (after.outstanding ≡ s.outstanding)))
    pub advances : Advances w out.1

  -- Each of the next `f` reads of the session is interrupted.
  pub Interrupted : ℕ → Worker host coder → ℕ → Type 0
  Interrupted zero w token = Unit {0}
  Interrupted (suc f) w token =
      (s : Session net) × (s' : Session net) × (m : Metrics) × (host.get w.sessions token ≡ some s)
      × (fill_buf s w.metrics ≡ some (err interrupted, s', m))
      × Interrupted f (set_session (record w { metrics = m }) token s') token

  -- Then the fuel runs out.
  pub Interrupted-runs_out :
      (f : ℕ) (w : Worker host coder) (token : ℕ)
      → Interrupted f w token
      → do_read f w token ≡ runs_out
  unfolding Interrupted do_read after_fill
  Interrupted-runs_out zero w token k = refl
  Interrupted-runs_out (suc f) w token (s, s', m, e, ran, k) =
      rw (e, ran, do_read) (Interrupted-runs_out f _ token k)

  module _ (keeps : Keeps host) where
    set_session-entry :
        (w : Worker host coder) (token : ℕ) (s s' : Session net)
        → host.get w.sessions token ≡ some s
        → host.get (set_session w token s').sessions token ≡ some s'
    unfolding set_session
    set_session-entry w token s s' e =
        keeps.get-set w.sessions token token s s' e ∙ rw (==_refl token) refl

    -- The session is written back; the counters and the ready queue may have changed as well.
    written_back :
        (w w₁ : Worker host coder) (token : ℕ) (s s' : Session net)
        → Good w
        → host.get w.sessions token ≡ some s
        → IsReady s'
        → s'.token ≡ s.token
        → Alike w w₁
        → Advances w (set_session w₁ token s')
    unfolding set_session
    written_back w w₁ token s s' g e r t like =
        set_session-Advances keeps token s s' g e
          (record { ready = r; same = t ∙ (g.proper token s e).same })
          (ap (λ t. host.set t token s') like.sessions) like.ready_queue like.pipeline

    finished :
        (w w₁ : Worker host coder) (token : ℕ) (s s' : Session net) (answer : Io (Unit {0}))
        → Good w
        → host.get w.sessions token ≡ some s
        → IsReady s'
        → s'.token ≡ s.token
        → Alike w w₁
        → s'.outstanding + w₁.metrics.response ≡ s.outstanding + w.metrics.response
        → (0 < s'.outstanding) ⊎ (s'.outstanding ≡ s.outstanding)
        → Read w token s (answer, set_session w₁ token s')
    unfolding set_session
    finished w w₁ token s s' answer g e r t like c q = record {
      after = s';
      entry = set_session-entry w₁ token s s' (rw like.sessions e);
      conserved = c;
      queue = inr (like.ready_queue, q);
      advances = written_back w w₁ token s s' g e r t like;
    }

    -- Nothing is decoded.
    untouched :
        (w : Worker host coder) (token : ℕ) (s s' : Session net) (m : Metrics)
        (answer : Io (Unit {0}))
        → Good w
        → host.get w.sessions token ≡ some s
        → IsReady s'
        → identity s' m ≡ identity s w.metrics
        → Read w token s (answer, set_session (record w { metrics = m }) token s')
    untouched w token s s' m answer g e r i =
        finished w (record w { metrics = m }) token s s' answer g e r (ap (λ x. x.0) i)
          (record { sessions = refl; ready_queue = refl; pipeline = refl }) (ap (λ x. x.1 + x.2) i)
          (inr (ap (λ x. x.1) i))

    -- Spurious reads register the session again.
    reregistered :
        (w w' : Worker host coder) (token : ℕ) (s : Session net) (answer : Io (Unit {0}))
        (r : Read w token s (ok tt, w'))
        → w'.ready_queue ≡ w.ready_queue
        → r.after.outstanding ≡ s.outstanding
        → Read w token s (ok tt, (reregister w' token).1)
    unfolding reregister set_session
    reregistered w w' token s answer r q o =
        rw (r.entry, reregister)
          (record {
            after = (Session.reregister r.after w'.poll).1;
            entry =
                keeps.get-set w'.sessions token token r.after _ r.entry ∙ rw (==_refl token) refl;
            conserved = omega (arith, r.conserved, reregister-outstanding r.after w'.poll);
            queue = inr (q, inr (reregister-outstanding r.after w'.poll ∙ o));
            advances = Advances-trans r.advances (
                set_session-Advances keeps token r.after _ r.advances.sound r.entry
                  (reregister-IsProper token r.after w'.poll
                    (r.advances.sound.proper token r.after r.entry))
                  refl refl refl);
          })

    settle-Read :
        (w : Worker host coder) (token : ℕ) (s : Session net) (ending : Ending) (s' : Session net)
        (w' : Worker host coder)
        → Good w
        → host.get w.sessions token ≡ some s
        → Taken s w (ending, s', w')
        → Read w token s (settle token (ending, s', w'))
    unfolding settle set_session Names
    settle-Read w token s waiting s' w' g e k =
        finished w w' token s s' (ok tt) g e k.ready k.token k.alike k.conserved
          (some_left waiting s'.outstanding s.outstanding (λ x. cc) k.ended)
    settle-Read w token s broken s' w' g e k =
        finished w w' token s s' (err invalid_data) g e k.ready k.token k.alike k.conserved
          (some_left broken s'.outstanding s.outstanding (λ x. cc) k.ended)
    settle-Read w token s drained s' w' g e k = record {
      after = s';
      entry = written;
      conserved = k.conserved;
      queue = inl (ap (λ q. q ++ (token ∷ [])) k.alike.ready_queue, refl, none_left k.ended);
      advances =
          push-Advances w (set_session w' token s') token
            (written_back w w' token s s' g e k.ready k.token k.alike) (s', written);
    }
      where
        written : host.get (set_session w' token s').sessions token ≡ some s'
        written = set_session-entry w' token s s' (rw k.alike.sessions e)

        none_left :
            ((drained ≡ drained) × (s'.outstanding ≡ 0))
              ⊎ ((drained ≢ drained) × (0 < s'.outstanding))
            → s'.outstanding ≡ 0
        none_left (inl (_, z)) = z
        none_left (inr (n, _)) = absurd (n refl)

    -- `fill_buf` has answered, and not with an interrupt.
    Returns :
        Worker host coder → ℕ → Session net → Progress (Io (Unit {0}) × Worker host coder) → Type 0
    Returns w token s p =
        (out : Io (Unit {0}) × Worker host coder) × (p ≡ returns out) × Read w token s out

    after_fill-Returns :
        (again : Worker host coder → Progress (Io (Unit {0}) × Worker host coder))
        (w : Worker host coder) (token : ℕ) (s s' : Session net) (m : Metrics)
        (answer : Io (Unit {0}))
        → Obeys coder
        → Good w
        → host.get w.sessions token ≡ some s
        → IsReady s'
        → identity s' m ≡ identity s w.metrics
        → answer ≢ err interrupted
        → Returns w token s (after_fill again token (record w { metrics = m }) s' answer)
    unfolding Returns Finishes after_fill set_session untouched finished
    after_fill-Returns again w token s s' m (ok u) obeys g e r i n =
        elim (Bool-cases (read_pending s' == 0)) [
          | inl z ↦ (_, rw (z, after_fill) refl, untouched w token s s' m (err other) g e r i)
          | inr z ↦
              let (out, ran, k) =
                take_responses-Taken obeys s'.outstanding (record w { metrics = m }) s' r
                  (omega arith) in
              (
                settle token out,
                rw (z, ran, after_fill) refl,
                settle-Read w token s out.0 out.1 out.2 g e (record {
                  ready = k.ready;
                  token = k.token ∙ ap (λ x. x.0) i;
                  alike = record {
                    sessions = k.alike.sessions;
                    ready_queue = k.alike.ready_queue;
                    pipeline = k.alike.pipeline;
                  };
                  conserved = k.conserved ∙ ap (λ x. x.1 + x.2) i;
                  ended = k.ended;
                }),
              )
        ]
    after_fill-Returns again w token s s' m (err would_block) obeys g e r i n = (
      _,
      refl,
      reregistered w _ token s (ok tt) (untouched w token s s' m (ok tt) g e r i) refl
          (ap (λ x. x.1) i),
    )
    after_fill-Returns again w token s s' m (err interrupted) obeys g e r i n = absurd (n refl)
    after_fill-Returns again w token s s' m (err k) obeys g e r i n =
        (_, refl, untouched w token s s' m (err k) g e r i)

    -- The read that follows an interrupt is a read of the session as it was.
    resumed :
        (w w' : Worker host coder) (token : ℕ) (s s' : Session net)
        (out : Io (Unit {0}) × Worker host coder)
        → Advances w w'
        → w'.ready_queue ≡ w.ready_queue
        → s'.outstanding + w'.metrics.response ≡ s.outstanding + w.metrics.response
        → s'.outstanding ≡ s.outstanding
        → Read w' token s' out
        → Read w token s out
    resumed w w' token s s' out p q c o r = record {
      after = r.after;
      entry = r.entry;
      conserved = r.conserved ∙ c;
      queue =
          subst
            (λ ((x, n) : List ℕ × ℕ).
              ((out.1.ready_queue ≡ x ++ (token ∷ []))
                × (out.0 ≡ ok tt)
                × (r.after.outstanding ≡ 0))
              ⊎ ((out.1.ready_queue ≡ x) × ((0 < r.after.outstanding) ⊎ (r.after.outstanding ≡ n))))
            (ap₂ (λ x n. (x, n)) q o) r.queue;
      advances = Advances-trans p r.advances;
    }

    -- When the slab keeps its promises, the codec obeys its contract and no call of a stream
    -- returns more bytes than fit: do_read on a session of a sound worker returns, or each read
    -- that its fuel allows is interrupted. When it returns, what was outstanding and counted as a
    -- response before is so in sum after, either the token is queued with an Ok and nothing is
    -- outstanding any more, or the ready queue is unchanged and something is outstanding, or as
    -- much as before, and the worker is sound with no session lost.
    pub do_read-Read :
        Obeys coder
        → Fits net
        → (f : ℕ) (w : Worker host coder) (token : ℕ) (s : Session net) → Good w
        → host.get w.sessions token ≡ some s
        → ((out : Io (Unit {0}) × Worker host coder) × (do_read f w token ≡ returns out)
            × Read w token s out)
          ⊎ Interrupted f w token
    unfolding do_read Interrupted Returns set_session finished
    do_read-Read obeys fits zero w token s g e = inr tt
    do_read-Read obeys fits (suc f) w token s g e =
        let (out, ran, filled) = fill_buf-Refilled fits s w.metrics (g.proper token s e).ready in
        let i = fill_buf-identity s w.metrics out ran in
        elim (ErrorKind-cases out.0) [
          | inl again ↦
              let cut =
                finished w (record w { metrics = out.2 }) token s out.1 out.0 g e filled.ready
                  (ap (λ x. x.0) i)
                  (record { sessions = refl; ready_queue = refl; pipeline = refl })
                  (ap (λ x. x.1 + x.2) i) (inr (ap (λ x. x.1) i)) in
              elim (do_read-Read obeys fits f
                (set_session (record w { metrics = out.2 }) token out.1) token cut.after
                cut.advances.sound cut.entry) [
                  | inl (o, d, r) ↦ inl (
                    o,
                    rw (e, ran, again, do_read) d,
                    resumed w _ token s cut.after o cut.advances refl cut.conserved
                        (ap (λ x. x.1) i) r,
                  )
                  | inr k ↦
                      inr (s, out.1, out.2, e, ran ∙ ap (λ a. some (a, out.1, out.2)) again, k)
                ]
          | inr n ↦
              let (r, done, read) =
                after_fill-Returns (λ w'. do_read f w' token) w token s out.1 out.2 out.0 obeys g e
                  filled.ready i n in
              inl (r, rw (e, ran, do_read) done, read)
        ]
