-- ===== src/Admin/Run/Windows.antt =====
-- src/admin.rs, `run`: the windows that are reported, and that the thread ends.
use rpc_perf.Base.{
  ℕ, zero, suc, ◌+◌, ◌*◌, ◌%◌, ◌^◌, ◌≤◌, ◌<◌, ◌≡◌, refl, sym, ap, ◌∙◌, subst, inl, inr, ◌⊎◌, arith,
  Bool-cases, Option, none, some, List, [], ◌∷◌, ◌++◌, append-nil, ltb, leb, ltb→lt, leb→le,
  if◌then◌else◌,
}
use rpc_perf.Base.Bytes.{Bytes}
use rpc_perf.Base.Outcome.{ret}
use rpc_perf.Net.{Net}
use rpc_perf.Host.{Host}
use rpc_perf.Settings.{OutputFormat}
use rpc_perf.Admin.{Console, Float}
use rpc_perf.Admin.Snapshot.{Snapshot, Metric}
use rpc_perf.Admin.Snapshot
use rpc_perf.Admin.Routes.{Build}
use rpc_perf.Admin.Run.Answers.{Readable, AllReadable, Answers, serve_waiting-Answers}
use rpc_perf.Admin.Run.{
  Sections, Admin, Tick, Output, responded, logged, printed, drawn, Loop, State, looping, finished,
  interval_of, format_of, limit_of, start, pass, emit, draw_file, draw, last, end_window, step, run,
}

-- The numbers of the windows that have been reported, in their order.
pub numbers : {float : Float} → List (Output float) → List ℕ
numbers [] = []
numbers (responded r ∷ os) = numbers os
numbers (logged r ∷ os) = r.window ∷ numbers os
numbers (printed r ∷ os) = r.window ∷ numbers os
numbers (drawn file scale palette ∷ os) = numbers os

-- 0 to n - 1.
pub range : ℕ → List ℕ
range zero = []
range (suc n) = range n ++ (n ∷ [])

numbers-append :
    {float : Float} (xs ys : List (Output float)) → numbers (xs ++ ys) ≡ numbers xs ++ numbers ys
unfolding numbers
numbers-append [] ys = refl
numbers-append (responded r ∷ xs) ys = numbers-append xs ys
numbers-append (logged r ∷ xs) ys = ap (◌∷◌ r.window) (numbers-append xs ys)
numbers-append (printed r ∷ xs) ys = ap (◌∷◌ r.window) (numbers-append xs ys)
numbers-append (drawn file scale palette ∷ xs) ys = numbers-append xs ys

numbers-Answers : {float : Float} (out : List (Output float)) → Answers out → numbers out ≡ []
unfolding numbers Answers
numbers-Answers [] h = refl
numbers-Answers (responded r ∷ out) h = numbers-Answers out h
numbers-Answers (logged r ∷ out) h = absurd h
numbers-Answers (printed r ∷ out) h = absurd h
numbers-Answers (drawn file scale palette ∷ out) h = absurd h

-- How many of the ticks come at a time or later.
pub late : {net : Net} {host : Host net} → ℕ → List (Tick host) → ℕ
late due [] = 0
late due (tick ∷ ticks) = (if ltb tick.now due then 0 else 1) + late due ticks

regroup : (a w k : ℕ) → a + w * k + k ≡ a + suc w * k
regroup a w k = ground arith

mul_mono : (a b k : ℕ) → a ≤ b → a * k ≤ b * k
mul_mono a b k h = grind arith

-- A tick that is late, and one that is not.
late-cons :
    {net : Net} {host : Host net} (due : ℕ) (tick : Tick host) (ticks : List (Tick host))
    → (late due (tick ∷ ticks) ≤ suc (late due ticks))
      × (tick.now < due → late due (tick ∷ ticks) ≡ late due ticks)
unfolding late
late-cons due tick ticks = (ground arith, λ h. ground arith)

module _ {net : Net} {host : Host net} (console : Console host) (float : Float)
    (build : Build) where
  emit-numbers :
      (format : OutputFormat) (l : Loop host float) (tick : Tick host) (sys : host.Sys)
      → numbers (emit console float build format l tick sys ∷ []) ≡ l.admin.window ∷ []
  unfolding emit numbers
  emit-numbers OutputFormat.log l tick sys = refl
  emit-numbers OutputFormat.json l tick sys = refl

  draw-numbers :
      (heatmap : Option host.Heatmap) (config : Option Sections)
      → numbers (draw console float build heatmap config) ≡ []
  unfolding draw draw_file numbers
  draw-numbers none config = refl
  draw-numbers (some heatmap) none = refl
  draw-numbers (some heatmap) (some c) = file c.waterfall.file
    where
      file : (f : Option Bytes) → numbers (draw_file console float build f c.waterfall) ≡ []
      file none = refl
      file (some f) = refl

  -- The loop is in a window up to the limit; `due` is the end of the first, and `width` the time
  -- that each takes.
  record Going (m due width : ℕ) (l : Loop host float) : Type 0 where
    limited : limit_of l.admin.config ≡ some m
    wide : interval_of l.admin.config ≡ width
    small : l.admin.window ≤ m
    counted : numbers l.output ≡ range l.admin.window
    timely : l.next ≡ due + l.admin.window * width

  -- Each window up to the limit is reported once, in order.
  pub Counted : ℕ → State host float → Type 0
  Counted m (looping l) = (l.admin.window ≤ m) × (numbers l.output ≡ range l.admin.window)
  Counted m (finished l) = numbers l.output ≡ range (suc m)

  pub IsFinished : State host float → Type 0
  IsFinished (looping l) = ⊥
  IsFinished (finished l) = Unit {0}

  -- The state after a pass.
  passed : Loop host float → Tick host → List (Output float) → host.Sys → Loop host float
  passed l tick out sys = record l {
    snapshot =
        Snapshot.new console (tick.others l.sys) tick.metrics tick.taken l.admin.connect_heatmap
          l.admin.request_heatmap;
    sys = sys;
    output = l.output ++ out;
  }

  pass-Going :
      (m due width : ℕ) (l : Loop host float) (tick : Tick host)
      → Going m due width l
      → Readable tick.requests
      → (l' : Loop host float) × (pass console float build l tick ≡ ret (looping l'))
        × Going m due width l'
        × (l'.admin.window ≡ l.admin.window)
  unfolding pass passed
  pass-Going m due width l tick g h =
      let a = l.admin in
      let (out, sys, e, silent) =
        serve_waiting-Answers console float build a.server a tick.requests (tick.others l.sys) h in
      (
        passed l tick out sys,
        rw e refl,
        record {
          limited = g.limited;
          wide = g.wide;
          small = g.small;
          counted =
              numbers-append l.output out
              ∙ ap (λ ns. numbers l.output ++ ns) (numbers-Answers out silent)
              ∙ append-nil (numbers l.output)
              ∙ g.counted;
          timely = g.timely;
        },
        refl,
      )

  -- The state with which `end_window` decides.
  ended : Loop host float → Tick host → Loop host float
  ended l tick = record l {
    admin = record l.admin { window = (l.admin.window + 1) % 2 ^ 64; snapshot = l.snapshot };
    next = l.next + interval_of l.admin.config;
    sys = tick.others l.sys;
    output =
        l.output
        ++ (emit console float build (format_of l.admin.config) l tick (tick.others l.sys) ∷ []);
  }

  ended-window :
      (l : Loop host float) (tick : Tick host)
      → suc l.admin.window < 2 ^ 64
      → (ended l tick).admin.window ≡ suc l.admin.window
  unfolding ended
  ended-window l tick h = omega arith

  ended-numbers :
      (l : Loop host float) (tick : Tick host)
      → numbers l.output ≡ range l.admin.window
      → numbers (ended l tick).output ≡ range (suc l.admin.window)
  unfolding ended range
  ended-numbers l tick h =
      numbers-append l.output _
      ∙ ap (λ ns. numbers l.output ++ ns) (emit-numbers (format_of l.admin.config) l tick _)
      ∙ ap (λ ns. ns ++ (l.admin.window ∷ [])) h

  ended-Going :
      (m due width : ℕ) (l : Loop host float) (tick : Tick host)
      → m < 2 ^ 64
      → Going m due width l
      → l.admin.window < m
      → Going m due width (ended l tick)
  unfolding ended
  ended-Going m due width l tick big g more =
      let next : (l.admin.window + 1) % 2 ^ 64 ≡ suc l.admin.window = omega arith in
      record {
        limited = g.limited;
        wide = g.wide;
        small = omega arith;
        counted = ended-numbers l tick g.counted ∙ ap range (sym next);
        timely =
            ap (λ t. l.next + t) g.wide
            ∙ ap (λ t. t + width) g.timely
            ∙ regroup due l.admin.window width
            ∙ ap (λ k. due + k * width) (sym next);
      }

  end_window-Going :
      (m due width : ℕ) (l : Loop host float) (tick : Tick host)
      → m < 2 ^ 64
      → Going m due width l
      → ((l' : Loop host float) × (end_window console float build l tick ≡ finished l')
          × (numbers l'.output ≡ range (suc m)))
        ⊎ ((l.admin.window < m) × (end_window console float build l tick ≡ looping (ended l tick)))
  unfolding end_window last ended
  end_window-Going m due width l tick big g =
      let e = ended l tick in
      let decides = λ (o : Option ℕ). last console float build o l.admin.window e in
      elim (Bool-cases (leb m l.admin.window)) [
        | inl h ↦
            let same : l.admin.window ≡ m = omega (arith, leb→le m l.admin.window h, g.small) in
            inl (
              record e {
                output =
                    e.output ++ draw console float build e.admin.request_waterfall e.admin.config;
              },
              ap decides g.limited ∙ (rw h refl),
              numbers-append e.output _
                  ∙ ap (λ ns. numbers e.output ++ ns)
                      (draw-numbers e.admin.request_waterfall e.admin.config)
                  ∙ append-nil (numbers e.output)
                  ∙ ended-numbers l tick g.counted
                  ∙ ap (λ w. range (suc w)) same,
            )
        | inr h ↦ inr (ground arith, ap decides g.limited ∙ (rw h refl))
      ]

  run-finished :
      (l : Loop host float) (ticks : List (Tick host))
      → run console float build (finished l) ticks ≡ ret (finished l)
  unfolding run
  run-finished l [] = refl
  run-finished l (tick ∷ ticks) = refl

  run-Going :
      (m due width : ℕ) (l : Loop host float) (ticks : List (Tick host))
      → m < 2 ^ 64
      → Going m due width l
      → AllReadable ticks
      → (s : State host float) × (run console float build (looping l) ticks ≡ ret s)
        × Counted m s
        × (suc m ≤ late (due + m * width) ticks + l.admin.window → IsFinished s)
  unfolding run step Counted IsFinished late AllReadable
  run-Going m due width l [] big g readable =
      (looping l, refl, (g.small, g.counted), λ h. absurd (omega (arith, g.small)))
  run-Going m due width l (tick ∷ ticks) big g readable = elim (Bool-cases (ltb tick.now l.next)) [
    | inl before ↦
        let (l', e, g', same) = pass-Going m due width l tick g readable.0 in
        let (s, runs, counted, ends) = run-Going m due width l' ticks big g' readable.1 in
        let early : tick.now < due + m * width = omega (
          arith,
          ltb→lt tick.now l.next before,
          g.timely,
          mul_mono l.admin.window m width g.small,
        ) in
        (
          s,
          rw (before, e) runs,
          counted,
          λ h. ends (omega (arith, h, same, (late-cons (due + m * width) tick ticks).1 early)),
        )
    | inr after ↦ elim (end_window-Going m due width l tick big g) [
      | inl (l', e, counted) ↦
          (finished l', rw (after, e) (run-finished l' ticks), counted, λ h. tt)
      | inr (more, e) ↦
          let g' = ended-Going m due width l tick big g more in
          let (s, runs, counted, ends) =
            run-Going m due width (ended l tick) ticks big g' readable.1 in
          (
            s,
            rw (after, e) runs,
            counted,
            λ h. ends (
                omega (
                  arith,
                  h,
                  ended-window l tick (omega (arith, more, big)),
                  (late-cons (due + m * width) tick ticks).0,
                )),
          )
    ]
  ]

  -- When the configuration limits the windows to m, below 2^64, none has been counted yet and the
  -- body of each request can be read: run does not panic, over any ticks. While it loops the
  -- window is at most m and each window before it has been reported once, in order; a thread that
  -- has finished has reported the windows 0 to m, m + 1 of them, once each and in order. It has
  -- finished once m + 1 of the ticks have come m + 1 intervals or more after the start.
  pub run-Counted :
      (a : Admin host) (now : ℕ) (metrics : List Metric) (taken : ℕ) (sys : host.Sys) (m : ℕ)
      (ticks : List (Tick host))
      → limit_of a.config ≡ some m
      → m < 2 ^ 64
      → a.window ≡ 0
      → AllReadable ticks
      → (s : State host float) × (run console float build
            (looping (start console float build a now metrics taken sys))
            ticks
          ≡ ret s)
        × Counted m s
        × (suc m ≤ late (now + suc m * interval_of a.config) ticks → IsFinished s)
  unfolding start numbers range
  run-Counted a now metrics taken sys m ticks limited big fresh readable =
      let width = interval_of a.config in
      let l = start console float build a now metrics taken sys in
      let (s, runs, counted, ends) =
        run-Going m (now + width) width l ticks big
          (record {
            limited = limited;
            wide = refl;
            small = omega (arith, fresh);
            counted = sym (ap range fresh);
            timely = first now width ∙ ap (λ w. now + width + w * width) (sym fresh);
          })
          readable in
      (
        s,
        runs,
        counted,
        λ h. ends (
            subst (λ due. suc m ≤ late due ticks + a.window) (sums now width m) (omega (arith, h))),
      )
    where
      first : (n k : ℕ) → n + k ≡ n + k + 0 * k
      first n k = omega arith

      sums : (n k w : ℕ) → n + suc w * k ≡ n + k + w * k
      sums n k w = ground arith
