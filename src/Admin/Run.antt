-- ===== src/Admin/Run.antt =====
-- src/admin.rs, `Admin` and its `run`. What happens each time that the loop reads the clock is a tick:
-- the time, what the other threads have done, the metrics that the snapshot reads, and the requests
-- that wait. A tick before `next` is a pass of the inner loop; any other ends the window.
pub mod Answers
pub mod Windows
pub mod Totals
use rpc_perf.Base.{
  ℕ, ◌+◌, ◌*◌, ◌%◌, ◌^◌, Bool, true, false, Option, none, some, List, [], ◌∷◌, ◌++◌, ltb, leb,
  if◌then◌else◌,
}
use rpc_perf.Base.Bytes.{Bytes}
use rpc_perf.Base.Outcome.{Outcome, ret, panic, ◌>>=◌}
use rpc_perf.Net.{Net}
use rpc_perf.Host.{Host}
use rpc_perf.Settings.{General, Waterfall, OutputFormat, Palette, Scale, interval, windows}
use rpc_perf.Admin.{Console, Float}
use rpc_perf.Admin.Snapshot.{Snapshot, Metric}
use rpc_perf.Admin.Snapshot
use rpc_perf.Admin.Report.{JsonSnapshot, LogReport, emit_log, emit_json}
use rpc_perf.Admin.Routes.{HttpRequest, Response, Build, serve}

-- The sections of the configuration that the thread reads.
pub record Sections : Type 0 where
  pub general : General
  pub waterfall : Waterfall

-- `window` is the static `WINDOW`, which no other thread changes.
pub record Admin {net : Net} (host : Host net) : Type 0 where
  pub config : Option Sections
  pub snapshot : Snapshot
  pub connect_heatmap : Option host.Heatmap
  pub reconnect_ratelimit : Option host.Limiter
  pub request_heatmap : Option host.Heatmap
  pub request_ratelimit : Option host.Limiter
  pub request_waterfall : Option host.Heatmap
  pub server : Bool
  pub window : ℕ

pub record Tick {net : Net} (host : Host net) : Type 0 where
  pub now : ℕ
  pub others : host.Sys → host.Sys
  pub metrics : List Metric
  pub taken : ℕ
  pub requests : List HttpRequest
  pub open_count : ℕ

-- What leaves the thread: answers, reports, and the image of the waterfall.
pub data Output (float : Float) : Type 0 where
  responded : Response → Output float
  logged : LogReport float → Output float
  printed : JsonSnapshot float → Output float
  drawn : Bytes → Scale → Palette → Output float

-- The variables of `run`.
pub record Loop {net : Net} (host : Host net) (float : Float) : Type 0 where
  pub admin : Admin host
  pub next : ℕ
  pub snapshot : Snapshot
  pub sys : host.Sys
  pub output : List (Output float)

pub data State {net : Net} (host : Host net) (float : Float) : Type 0 where
  looping finished : Loop host float → State host float

-- A minute without a configuration.
unfoldable pub interval_of : Option Sections → ℕ
unfolding interval
interval_of none = 60 * 10 ^ 9
interval_of (some c) = interval c.general

unfoldable pub format_of : Option Sections → OutputFormat
format_of none = OutputFormat.log
format_of (some c) = c.general.output_format

unfoldable pub limit_of : Option Sections → Option ℕ
unfolding windows
limit_of none = none
limit_of (some c) = windows c.general

module _ {net : Net} {host : Host net} (console : Console host) where
  pub new : Option Sections → Bool → List Metric → ℕ → ℕ → host.Sys → Admin host
  new config server metrics taken window sys = record {
    config = config;
    snapshot = Snapshot.new console sys metrics taken none none;
    connect_heatmap = none;
    reconnect_ratelimit = none;
    request_heatmap = none;
    request_ratelimit = none;
    request_waterfall = none;
    server = server;
    window = window;
  }

module _ {net : Net} {host : Host net} (console : Console host) (float : Float)
    (build : Build) where
  -- Before the loop.
  pub start : Admin host → ℕ → List Metric → ℕ → host.Sys → Loop host float
  unfolding interval_of
  start a now metrics taken sys = record {
    admin = a;
    next = now + interval_of a.config;
    snapshot = Snapshot.new console sys metrics taken a.connect_heatmap a.request_heatmap;
    sys = sys;
    output = [];
  }

  pub serve_all :
      Admin host → List HttpRequest → host.Sys → Outcome (List (Output float) × host.Sys)
  serve_all a [] sys = ret ([], sys)
  serve_all a (r ∷ requests) sys = do
    (response, sys₁) ←
        serve console build a.snapshot a.reconnect_ratelimit a.request_ratelimit r sys
    (rest, sys₂) ← serve_all a requests sys₁
    ret (responded response ∷ rest, sys₂)

  pub serve_waiting :
      Bool → Admin host → List HttpRequest → host.Sys → Outcome (List (Output float) × host.Sys)
  unfolding serve_all
  serve_waiting true a requests sys = serve_all a requests sys
  serve_waiting false a requests sys = ret ([], sys)

  -- A pass of the inner loop.
  pub pass : Loop host float → Tick host → Outcome (State host float)
  unfolding serve_waiting
  pass l tick = do
    let a = l.admin
    let sys = tick.others l.sys
    (answers, sys') ← serve_waiting a.server a tick.requests sys
    ret (
        looping (record l {
          snapshot =
              Snapshot.new console sys tick.metrics tick.taken a.connect_heatmap a.request_heatmap;
          sys = sys';
          output = l.output ++ answers;
        }))

  pub emit : OutputFormat → Loop host float → Tick host → host.Sys → Output float
  unfolding emit_log emit_json
  emit OutputFormat.log l tick sys = logged (
      emit_log float console sys l.admin.connect_heatmap l.admin.request_heatmap tick.open_count
        l.admin.window l.snapshot l.admin.snapshot)
  emit OutputFormat.json l tick sys = printed (
      emit_json float console sys l.admin.connect_heatmap l.admin.request_heatmap tick.open_count
        l.admin.window l.snapshot l.admin.snapshot)

  draw_file : Option Bytes → Waterfall → List (Output float)
  draw_file none w = []
  draw_file (some file) w = drawn file w.scale w.palette ∷ []

  draw : Option host.Heatmap → Option Sections → List (Output float)
  unfolding draw_file
  draw none config = []
  draw (some heatmap) none = []
  draw (some heatmap) (some c) = draw_file c.waterfall.file c.waterfall

  -- Whether the window was the last.
  pub last : Option ℕ → ℕ → Loop host float → State host float
  unfolding draw
  last none window l = looping l
  last (some max_window) window l =
      if leb max_window window
      then finished
          (record l { output = l.output ++ draw l.admin.request_waterfall l.admin.config })
      else looping l

  pub end_window : Loop host float → Tick host → State host float
  unfolding interval_of format_of limit_of emit last
  end_window l tick =
      let a = l.admin in
      let sys = tick.others l.sys in
      last (limit_of a.config) a.window (record l {
        admin = record a { window = (a.window + 1) % 2 ^ 64; snapshot = l.snapshot };
        next = l.next + interval_of a.config;
        sys = sys;
        output = l.output ++ (emit (format_of a.config) l tick sys ∷ []);
      })

  pub step : Loop host float → Tick host → Outcome (State host float)
  unfolding pass end_window
  step l tick = if ltb tick.now l.next then pass l tick else ret (end_window l tick)

  -- A thread that has finished takes no more ticks.
  pub run : State host float → List (Tick host) → Outcome (State host float)
  unfolding step
  run s [] = ret s
  run (finished l) (tick ∷ ticks) = ret (finished l)
  run (looping l) (tick ∷ ticks) = do s ← step l tick; run s ticks

module _ {net : Net} {host : Host net} where
  abbrev pub set_connect_heatmap : Admin host → Option host.Heatmap → Admin host
  set_connect_heatmap a heatmap = record a { connect_heatmap = heatmap }

  abbrev pub set_reconnect_ratelimit : Admin host → Option host.Limiter → Admin host
  set_reconnect_ratelimit a ratelimiter = record a { reconnect_ratelimit = ratelimiter }

  abbrev pub set_request_heatmap : Admin host → Option host.Heatmap → Admin host
  set_request_heatmap a heatmap = record a { request_heatmap = heatmap }

  abbrev pub set_request_ratelimit : Admin host → Option host.Limiter → Admin host
  set_request_ratelimit a ratelimiter = record a { request_ratelimit = ratelimiter }

  abbrev pub set_request_waterfall : Admin host → Option host.Heatmap → Admin host
  set_request_waterfall a heatmap = record a { request_waterfall = heatmap }
