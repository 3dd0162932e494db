-- ===== src/Tests/Admins.antt =====
-- src/admin.rs at concrete snapshots, requests and ticks.
use rpc_perf.Base.{
  ℕ, ◌+◌, ◌*◌, ◌^◌, ◌≤◌, ◌≡◌, refl, true, false, some, none, List, [], ◌∷◌, ltb, arith,
}
use mathlib.Core.List.Perm
use rpc_perf.Base.Bytes.{Bytes, codes}
use rpc_perf.Base.Decimal.{to_decimal}
use rpc_perf.Base.Sort.{sort}
use rpc_perf.Base.Text.{join, split_at}
use rpc_perf.Base.Outcome.{ret}
use rpc_perf.Settings.{Protocol, OutputFormat, Palette, Scale}
use rpc_perf.Admin.{Console, Float}
use rpc_perf.Admin.Snapshot.{Snapshot, Entry, Metric, counter}
use rpc_perf.Admin.Snapshot.Deltas.{Below, AreWords}
use rpc_perf.Admin.Text.{human, json, prometheus}
use rpc_perf.Admin.Text.Order.{reordered, text-reordered}
use rpc_perf.Admin.Routes.{Method, HttpRequest, Response, Build, serve}
use rpc_perf.Admin.Routes.Served.{Served, serve-Served}
use rpc_perf.Admin.Run.{Sections, Admin, Tick, State, looping, interval_of, limit_of, start, run}
use rpc_perf.Admin.Run.Answers.{AllReadable}
use rpc_perf.Admin.Run.Windows.{Counted, IsFinished, late, run-Counted}
use rpc_perf.Admin.Run.Totals.{Told, reported, loop_of, AllWords, run-Told}
use rpc_perf.Tests.Machine.{machine}

abbrev pub console : Console machine
console = record {
  percentile = λ heatmap p sys. some heatmap;
  summary = λ heatmap sys. (heatmap, 1) ∷ [];
  set_rate = λ limiter rate sys. rate;
}

-- Whole numbers.
abbrev float : Float
float = record {
  F64 = ℕ;
  of_u64 = λ n. n;
  secs = λ n. n;
  sub = λ a b. a;
  mul = λ a b. a * b;
  div = λ a b. a;
  is_positive = λ a. ltb 0 a;
}

abbrev pub build : Build
build = record { name = codes "rpc-perf"; version = codes "3" }

abbrev requests : ℕ → Bytes × Entry
requests n = (codes "request", record { description = none; value = n })

abbrev connects : ℕ → Bytes × Entry
connects n = (codes "connect", record { description = some (codes "attempts"); value = n })

abbrev pub snapshot : Snapshot
snapshot = record {
  counters = requests 7 ∷ connects 3 ∷ [];
  gauges = [];
  timestamp = 0;
  connect_percentiles = [];
  request_percentiles = (codes "p25", 8) ∷ [];
}

human-snapshot : human snapshot ≡ codes "connect: 3\nrequest: 7\nresponse_latency/p25: 8\n"
unfolding human join sort to_decimal
human-snapshot = refl

json-snapshot : json snapshot ≡ codes "{\"connect\": 3,\"request\": 7,\"response_latency/p25\": 8}"
unfolding json join sort to_decimal
json-snapshot = refl

prometheus-snapshot :
    prometheus (record snapshot { counters = connects 3 ∷ [] })
    ≡ codes
        "# HELP connect attempts\n# TYPE connect counter\nconnect 3\n# TYPE response_latency gauge\nresponse_latency{percentile=\"p25\"} 8\n"
unfolding prometheus join split_at sort to_decimal
prometheus-snapshot = refl

text_example :
    (human (reordered snapshot (connects 3 ∷ requests 7 ∷ []) []) ≡ human snapshot)
    × (json (reordered snapshot (connects 3 ∷ requests 7 ∷ []) []) ≡ json snapshot)
    × (prometheus (reordered snapshot (connects 3 ∷ requests 7 ∷ []) []) ≡ prometheus snapshot)
text_example = text-reordered snapshot (Perm.swap (connects 3) (requests 7) []) (Perm.refl [])

abbrev pub set_request : HttpRequest
set_request = record {
  method = Method.put;
  url = codes "/ratelimit/request";
  body = some (codes "250");
}

serve_example :
    (p : Response × ℕ) × (serve console build snapshot none (some 0) set_request 9 ≡ ret p)
    × Served console none (some 0) set_request 9 p
serve_example = serve-Served console build snapshot none (some 0) set_request (codes "250") 9 refl

-- Two windows of a second, over ticks at half of each.
abbrev sections : Sections
sections = record {
  general = record {
    protocol = Protocol.ping;
    interval_secs = 1;
    window_limit = 1;
    threads = 1;
    service = false;
    admin = none;
    output_format = OutputFormat.json;
  };
  waterfall = record {
    file = none;
    palette = Palette.ironbow;
    resolution = 1000;
    scale = Scale.linear;
  };
}

abbrev admin : Admin machine
admin = record {
  config = some sections;
  snapshot = snapshot;
  connect_heatmap = none;
  reconnect_ratelimit = none;
  request_heatmap = some 5;
  request_ratelimit = some 0;
  request_waterfall = none;
  server = true;
  window = 0;
}

abbrev metrics : ℕ → List Metric
metrics n = counter (codes "connect") (record { description = none; value = n }) ∷ []

abbrev tick : ℕ → ℕ → List HttpRequest → Tick machine
tick now n waiting = record {
  now = now;
  others = λ sys. sys + 1;
  metrics = metrics n;
  taken = now;
  requests = waiting;
  open_count = 1;
}

abbrev ticks : List (Tick machine)
ticks =
    tick (5 * 10 ^ 8) 4 (set_request ∷ []) ∷ tick (20 * 10 ^ 8) 6 [] ∷ tick (20 * 10 ^ 8) 9 [] ∷ []

abbrev begun : State machine float
begun = looping (start console float build admin 0 (metrics 3) 0 0)

windows_example :
    (s : State machine float) × (run console float build begun ticks ≡ ret s)
    × Counted console float build 1 s
    × (2 ≤ late (0 + 2 * interval_of (some sections)) ticks → IsFinished console float build s)
unfolding limit_of AllReadable
windows_example =
    run-Counted console float build admin 0 (metrics 3) 0 0 1 ticks refl (omega arith) refl
      (((codes "250", refl), tt), (tt, (tt, tt)))

totals_example :
    (s : State machine float) × (run console float build begun ticks ≡ ret s)
    × Told
        (reported (loop_of console float build s).output)
        snapshot
        (loop_of console float build s).admin.snapshot
unfolding Below AreWords AllWords AllReadable
totals_example =
    run-Told console float build admin 0 (metrics 3) 0 0 ticks (omega arith) (omega arith)
      (((codes "250", refl), tt), (tt, (tt, tt))) (omega arith)
