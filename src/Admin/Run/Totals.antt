-- ===== src/Admin/Run/Totals.antt =====
-- src/admin.rs, `run`: the windows together report what the counters have moved.
use rpc_perf.Base.{
  ℕ, ◌+◌, ◌%◌, ◌^◌, ◌≡◌, refl, sym, ap, ◌∙◌, subst, inl, inr, arith, Bool-cases, Option, none, some,
  List, [], ◌∷◌, ◌++◌, append-nil, ltb, leb,
}
use rpc_perf.Base.Bytes.{Bytes, codes}
use rpc_perf.Base.Outcome.{ret}
use rpc_perf.Net.{Net}
use rpc_perf.Host.{Host}
use rpc_perf.Settings.{OutputFormat}
use rpc_perf.Admin.{Console, Float}
use rpc_perf.Admin.Snapshot.{
  Snapshot, Metric, counter, gauge, opaque, Entry, insert, get, collect, value_of, delta_count,
}
use rpc_perf.Admin.Snapshot.Deltas.{
  AreWords, Below, collect-Below, delta_count-add, delta_count_self,
}
use rpc_perf.Admin.Snapshot
use rpc_perf.Admin.Report.{Connections, emit_log, emit_json, connections}
use rpc_perf.Admin.Routes.{Build}
use rpc_perf.Admin.Run.Answers.{Readable, AllReadable, Answers, serve_waiting-Answers}
use rpc_perf.Admin.Run.{
  Sections, Admin, Tick, Output, responded, logged, printed, drawn, Loop, State, looping, finished,
  format_of, limit_of, start, pass, emit, draw_file, draw, last, end_window, step, run,
}

-- What the reports say of the connections, and the sum of a field of it.
pub reported : {float : Float} → List (Output float) → List Connections
reported [] = []
reported (responded r ∷ os) = reported os
reported (logged r ∷ os) = r.connections ∷ reported os
reported (printed r ∷ os) = r.connections ∷ reported os
reported (drawn file scale palette ∷ os) = reported os

pub total : (Connections → ℕ) → List Connections → ℕ
total f [] = 0
total f (c ∷ cs) = f c + total f cs

reported-append :
    {float : Float} (xs ys : List (Output float)) → reported (xs ++ ys) ≡ reported xs ++ reported ys
unfolding reported
reported-append [] ys = refl
reported-append (responded r ∷ xs) ys = reported-append xs ys
reported-append (logged r ∷ xs) ys = ap (◌∷◌ r.connections) (reported-append xs ys)
reported-append (printed r ∷ xs) ys = ap (◌∷◌ r.connections) (reported-append xs ys)
reported-append (drawn file scale palette ∷ xs) ys = reported-append xs ys

reported-Answers : {float : Float} (out : List (Output float)) → Answers out → reported out ≡ []
unfolding reported Answers
reported-Answers [] h = refl
reported-Answers (responded r ∷ out) h = reported-Answers out h
reported-Answers (logged r ∷ out) h = absurd h
reported-Answers (printed r ∷ out) h = absurd h
reported-Answers (drawn file scale palette ∷ out) h = absurd h

total-append :
    (f : Connections → ℕ) (xs ys : List Connections) → total f (xs ++ ys) ≡ total f xs + total f ys
unfolding total
total-append f [] ys = omega arith
total-append f (c ∷ xs) ys = omega (arith, total-append f xs ys)

-- The connections that the reports tell of, from one snapshot to another.
pub record Told (reports : List Connections) (since now : Snapshot) : Type 0 where
  pub attempts :
      total (λ (c : Connections). c.attempts) reports % 2 ^ 64
      ≡ delta_count now since (codes "connect")
  pub opened :
      total (λ (c : Connections). c.opened) reports % 2 ^ 64
      ≡ delta_count now since (codes "session")
  pub errors :
      total (λ (c : Connections). c.errors) reports % 2 ^ 64
      ≡ delta_count now since (codes "connect_ex")

Told-append :
    (float : Float) (reports : List Connections) (s₀ s₁ s₂ : Snapshot) (open_count : ℕ)
    → Below s₀.counters
    → Below s₁.counters
    → Told reports s₀ s₁
    → Told (reports ++ (connections float s₂ s₁ open_count ∷ [])) s₀ s₂
unfolding connections total
Told-append float reports s₀ s₁ s₂ open_count b₀ b₁ told =
    let c = connections float s₂ s₁ open_count in
    record {
      attempts =
          ap (λ n. n % 2 ^ 64) (total-append (λ (c : Connections). c.attempts) reports (c ∷ []))
          ∙ delta_count-add s₀ s₁ s₂ (codes "connect") _ b₀ b₁ told.attempts;
      opened =
          ap (λ n. n % 2 ^ 64) (total-append (λ (c : Connections). c.opened) reports (c ∷ []))
          ∙ delta_count-add s₀ s₁ s₂ (codes "session") _ b₀ b₁ told.opened;
      errors =
          ap (λ n. n % 2 ^ 64) (total-append (λ (c : Connections). c.errors) reports (c ∷ []))
          ∙ delta_count-add s₀ s₁ s₂ (codes "connect_ex") _ b₀ b₁ told.errors;
    }

unfoldable pub AllWords : {net : Net} {host : Host net} → List (Tick host) → Type 0
unfolding AreWords
AllWords [] = Unit {0}
AllWords (tick ∷ ticks) = AreWords tick.metrics × AllWords ticks

module _ {net : Net} {host : Host net} (console : Console host) (float : Float)
    (build : Build) where
  emit-reported :
      (format : OutputFormat) (l : Loop host float) (tick : Tick host) (sys : host.Sys)
      → reported (emit console float build format l tick sys ∷ [])
        ≡ connections float l.snapshot l.admin.snapshot tick.open_count ∷ []
  unfolding emit reported emit_log emit_json
  emit-reported OutputFormat.log l tick sys = refl
  emit-reported OutputFormat.json l tick sys = refl

  draw-reported :
      (heatmap : Option host.Heatmap) (config : Option Sections)
      → reported (draw console float build heatmap config) ≡ []
  unfolding draw draw_file reported
  draw-reported none config = refl
  draw-reported (some heatmap) none = refl
  draw-reported (some heatmap) (some c) = file c.waterfall.file
    where
      file : (f : Option Bytes) → reported (draw_file console float build f c.waterfall) ≡ []
      file none = refl
      file (some f) = refl

  record Kept (s₀ : Snapshot) (l : Loop host float) : Type 0 where
    held : Below l.admin.snapshot.counters
    fresh : Below l.snapshot.counters
    told : Told (reported l.output) s₀ l.admin.snapshot

  -- The reports so far tell of all that has happened up to the last of them.
  pub loop_of : State host float → Loop host float
  loop_of (looping l) = l
  loop_of (finished l) = l

  with_output :
      (s₀ : Snapshot) (l : Loop host float) (out : List (Output float))
      → reported out ≡ []
      → Kept s₀ l
      → Kept s₀ (record l { output = l.output ++ out })
  with_output s₀ l out silent k = record {
    held = k.held;
    fresh = k.fresh;
    told =
        subst (λ cs. Told cs s₀ l.admin.snapshot)
          (sym (
            reported-append l.output out
            ∙ ap (λ cs. reported l.output ++ cs) silent
            ∙ append-nil (reported l.output)))
          k.told;
  }

  last-Kept :
      (s₀ : Snapshot) (limit : Option ℕ) (w : ℕ) (l : Loop host float)
      → Kept s₀ l
      → Kept s₀ (loop_of (last console float build limit w l))
  unfolding last loop_of
  last-Kept s₀ none w l k = k
  last-Kept s₀ (some m) w l k = elim (Bool-cases (leb m w)) [
    | inl h ↦ rw h (
        with_output s₀ l (draw console float build l.admin.request_waterfall l.admin.config)
          (draw-reported l.admin.request_waterfall l.admin.config) k)
    | inr h ↦ rw h k
  ]

  end_window-Kept :
      (s₀ : Snapshot) (l : Loop host float) (tick : Tick host)
      → Below s₀.counters
      → Kept s₀ l
      → Kept s₀ (loop_of (end_window console float build l tick))
  unfolding end_window
  end_window-Kept s₀ l tick b k = last-Kept s₀ (limit_of l.admin.config) l.admin.window _ (record {
    held = k.fresh;
    fresh = k.fresh;
    told =
        subst (λ cs. Told cs s₀ l.snapshot)
          (sym (
            reported-append l.output _
            ∙ ap (λ cs. reported l.output ++ cs)
                (emit-reported (format_of l.admin.config) l tick (tick.others l.sys))))
          (Told-append float (reported l.output) s₀ l.admin.snapshot l.snapshot tick.open_count b
            k.held k.told);
  })

  new-Below :
      (sys : host.Sys) (metrics : List Metric) (taken : ℕ) (c r : Option host.Heatmap)
      → AreWords metrics
      → Below (Snapshot.new console sys metrics taken c r).counters
  unfolding Snapshot.new Below
  new-Below sys metrics taken c r w = collect-Below metrics [] [] w tt

  step-Kept :
      (s₀ : Snapshot) (l : Loop host float) (tick : Tick host)
      → Below s₀.counters
      → Readable tick.requests
      → AreWords tick.metrics
      → Kept s₀ l
      → (s : State host float) × (step console float build l tick ≡ ret s) × Kept s₀ (loop_of s)
  unfolding step pass loop_of
  step-Kept s₀ l tick b readable words k = elim (Bool-cases (ltb tick.now l.next)) [
    | inl before ↦
        let a = l.admin in
        let (out, sys, e, silent) =
          serve_waiting-Answers console float build a.server a tick.requests (tick.others l.sys)
            readable in
        let snapshot =
          Snapshot.new console (tick.others l.sys) tick.metrics tick.taken a.connect_heatmap
            a.request_heatmap in
        (
          looping (record l { snapshot = snapshot; sys = sys; output = l.output ++ out }),
          rw (before, e) refl,
          with_output s₀ (record l { snapshot = snapshot; sys = sys }) out
              (reported-Answers out silent)
              (record {
                held = k.held;
                fresh =
                    new-Below (tick.others l.sys) tick.metrics tick.taken a.connect_heatmap
                      a.request_heatmap words;
                told = k.told;
              }),
        )
    | inr after ↦
        (end_window console float build l tick, rw after refl, end_window-Kept s₀ l tick b k)
  ]

  run-Kept :
      (s₀ : Snapshot) (s : State host float) (ticks : List (Tick host))
      → Below s₀.counters
      → AllReadable ticks
      → AllWords ticks
      → Kept s₀ (loop_of s)
      → (s' : State host float) × (run console float build s ticks ≡ ret s') × Kept s₀ (loop_of s')
  unfolding run AllReadable AllWords loop_of
  run-Kept s₀ s [] b readable words k = (s, refl, k)
  run-Kept s₀ (finished l) (tick ∷ ticks) b readable words k = (finished l, refl, k)
  run-Kept s₀ (looping l) (tick ∷ ticks) b readable words k =
      let (s, e, k') = step-Kept s₀ l tick b readable.0 words.0 k in
      let (s', runs, k'') = run-Kept s₀ s ticks b readable.1 words.1 k' in (s', rw e runs, k'')

  -- When each counter of a registry is a u64 and the body of each request can be read, run
  -- returns over any ticks, and what the reports of the windows say of connection attempts, of
  -- sessions opened and of connection errors adds up, modulo 2^64, to what these counters have
  -- moved from the snapshot at the start to the last one reported: nothing is lost or counted
  -- twice between two windows.
  pub run-Told :
      (a : Admin host) (now : ℕ) (metrics : List Metric) (taken : ℕ) (sys : host.Sys)
      (ticks : List (Tick host))
      → Below a.snapshot.counters
      → AreWords metrics
      → AllReadable ticks
      → AllWords ticks
      → (s : State host float) × (run console float build
            (looping (start console float build a now metrics taken sys))
            ticks
          ≡ ret s)
        × Told (reported (loop_of s).output) a.snapshot (loop_of s).admin.snapshot
  unfolding start loop_of reported total
  run-Told a now metrics taken sys ticks b words readable all =
      let l = start console float build a now metrics taken sys in
      let (s, runs, k) = run-Kept a.snapshot (looping l) ticks b readable all (record {
        held = b;
        fresh = new-Below sys metrics taken a.connect_heatmap a.request_heatmap words;
        told = record {
          attempts = delta_count_self a.snapshot (codes "connect");
          opened = delta_count_self a.snapshot (codes "session");
          errors = delta_count_self a.snapshot (codes "connect_ex");
        };
      }) in
      (s, runs, k.told)
