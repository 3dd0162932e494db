-- ===== src/Tests/Builders.antt =====
-- src/lib.rs at a concrete configuration. A handle is the number of handles made before it.
use rpc_perf.Base.{
  ℕ, ◌+◌, ◌≡◌, ◌≢◌, ◌⊎◌, refl, true, false, some, none, [], ◌∷◌, length, Option, All,
}
use rpc_perf.Base.Bytes.{codes}
use rpc_perf.Base.Outcome.{ret}
use rpc_perf.Metrics.{zeroed}
use rpc_perf.Settings.{Protocol, OutputFormat, Level, Palette, Scale, RatelimitModel}
use rpc_perf.Admin.Routes.{Method, Response, serve}
use rpc_perf.Admin.Run as Run
use rpc_perf.Codec.Ping.Worker.{coder}
use rpc_perf.Builder.{Maker, Supply, Builder, Config, sections, assemble, new}
use rpc_perf.Builder.Shared.{Shares, Reaches, new-Reaches}
use rpc_perf.Tests.World.{network}
use rpc_perf.Tests.Machine.{machine}
use rpc_perf.Tests.Admins.{console, build, snapshot, set_request}

abbrev maker : Maker machine
maker = record {
  limiter = λ threads rate refill sys. (sys, sys + 1);
  heatmap = λ secs resolution sys. ret (sys, sys + 1);
}

abbrev config : Config machine
config = record {
  general = record {
    protocol = Protocol.ping;
    interval_secs = 60;
    window_limit = 5;
    threads = 2;
    service = false;
    admin = some (codes "127.0.0.1:9090");
    output_format = OutputFormat.log;
  };
  debug = record {
    log_level = Level.info;
    log_file = none;
    backup = none;
    log_max_size = 0;
    log_queue_depth = 0;
    log_single_message_size = 0;
  };
  connection = record {
    poolsize = 1;
    ratelimit = none;
    model = none;
    reconnect = some 10;
    tcp_nodelay = false;
    timeout = none;
    pipeline = 1;
  };
  request = record { timeout = none; ratelimit = some 100; model = some RatelimitModel.uniform };
  waterfall = record {
    file = none;
    palette = Palette.ironbow;
    resolution = 1000;
    scale = Scale.linear;
  };
  endpoints = 80 ∷ [];
  tls = none;
}

abbrev supply : ℕ → Supply machine (coder network)
supply n = record {
  shuffle = λ addrs. addrs;
  sessions = [];
  poll = tt;
  codec = tt;
  metrics = zeroed;
  sys = 0;
}

abbrev builder : Builder machine (coder network)
builder =
    assemble config supply (Run.new console (some (sections config)) true [] 0 0 4) none (some 0)
      (some 1) 2 3 none

builder_example :
    (length builder.workers ≡ 2)
    × (connect : Option ℕ) × All (Shares connect builder.admin) builder.workers
    × (response : Response) × (sys' : ℕ) × (serve console build snapshot
          builder.admin.reconnect_ratelimit builder.admin.request_ratelimit set_request 9
        ≡ ret (response, sys'))
    × (((response ≢ Response.empty 200) × (sys' ≡ 9))
        ⊎ ((set_request.method ≡ Method.put)
            × (response ≡ Response.empty 200)
            × Reaches console maker config builder set_request (codes "250") 9 sys'))
unfolding new
builder_example =
    new-Reaches console maker config supply [] 0 0 0 9 builder build snapshot set_request
      (codes "250") refl refl
