-- ===== src/Worker/Start.antt =====
-- src/worker.rs: `Worker::new`, and the setters that the start-up code calls on it. The crate `rand`
-- shuffles the queue; the poll, the TLS connector and the codec that `new` makes are arguments.
use rpc_perf.Base.{
  ℕ, suc, ◌+◌, ◌*◌, ◌≡◌, sym, ◌∙◌, Option, none, some, List, [], ◌∷◌, ◌++◌, arith, length,
  length-append, length-replicate, replicate,
}
use mathlib.Core.Path.{ap₂}
use rpc_perf.Metrics.{Metrics}
use rpc_perf.Net.{Net}
use rpc_perf.Session.{Session}
use rpc_perf.Host.{Host}
use rpc_perf.Coder.{Coder}
use rpc_perf.Worker.{Worker}
use rpc_perf.Worker.Sound.{AllName}
use rpc_perf.Worker.Sessions.{Good}

-- The two `for` loops: each endpoint, `poolsize` times.
pool : {A B : Type 0} → ℕ → List A → List (A × Option B)
pool poolsize [] = []
pool poolsize (endpoint ∷ endpoints) =
    replicate poolsize (endpoint, none) ++ pool poolsize endpoints

length-pool :
    (A B : Type 0) (poolsize : ℕ) (endpoints : List A)
    → length (pool {A = A} {B = B} poolsize endpoints) ≡ poolsize * length endpoints
unfolding pool
length-pool A B poolsize [] = ground arith
length-pool A B poolsize (endpoint ∷ endpoints) =
    let entry : A × Option B = (endpoint, none) in
    let mul : poolsize * suc (length endpoints) ≡ poolsize + poolsize * length endpoints =
      ground arith in
    length-append (replicate poolsize entry) (pool poolsize endpoints)
    ∙ ap₂ (λ a b. a + b) (length-replicate poolsize entry) (length-pool A B poolsize endpoints)
    ∙ sym mul

module _ {net : Net} {host : Host net} {coder : Coder net} where
  pub new :
      (List (net.Addr × Option net.SslSession) → List (net.Addr × Option net.SslSession))
      → host.Slab
      → List net.Addr
      → ℕ
      → ℕ
      → Option host.Connector
      → net.Poll
      → coder.State
      → Metrics
      → host.Sys
      → Worker host coder
  unfolding pool
  new shuffle sessions endpoints poolsize pipeline tls poll codec metrics sys = record {
    codec = codec;
    connect_queue = shuffle (pool poolsize endpoints);
    connect_ratelimit = none;
    poll = poll;
    ready_queue = [];
    reconnect_ratelimit = none;
    request_ratelimit = none;
    sessions = sessions;
    tls = tls;
    connect_heatmap = none;
    request_heatmap = none;
    request_waterfall = none;
    pipeline = pipeline;
    metrics = metrics;
    sys = sys;
  }

  abbrev pub set_connect_ratelimit : Worker host coder → Option host.Limiter → Worker host coder
  set_connect_ratelimit w ratelimiter = record w { connect_ratelimit = ratelimiter }

  abbrev pub set_reconnect_ratelimit : Worker host coder → Option host.Limiter → Worker host coder
  set_reconnect_ratelimit w ratelimiter = record w { reconnect_ratelimit = ratelimiter }

  abbrev pub set_request_ratelimit : Worker host coder → Option host.Limiter → Worker host coder
  set_request_ratelimit w ratelimiter = record w { request_ratelimit = ratelimiter }

  abbrev pub set_connect_heatmap : Worker host coder → Option host.Heatmap → Worker host coder
  set_connect_heatmap w heatmap = record w { connect_heatmap = heatmap }

  abbrev pub set_request_heatmap : Worker host coder → Option host.Heatmap → Worker host coder
  set_request_heatmap w heatmap = record w { request_heatmap = heatmap }

  abbrev pub set_request_waterfall : Worker host coder → Option host.Heatmap → Worker host coder
  set_request_waterfall w heatmap = record w { request_waterfall = heatmap }

-- A new worker is sound, when its slab is empty, and it has each endpoint to connect to as often
-- as the pool is large, when shuffling keeps the length.
pub new-Good :
    {net : Net} {host : Host net} (coder : Coder net)
    (shuffle : List (net.Addr × Option net.SslSession) → List (net.Addr × Option net.SslSession))
    (sessions : host.Slab) (endpoints : List net.Addr) (poolsize pipeline : ℕ)
    (tls : Option host.Connector) (poll : net.Poll) (codec : coder.State) (metrics : Metrics)
    (sys : host.Sys)
    → ((xs : List (net.Addr × Option net.SslSession)) → length (shuffle xs) ≡ length xs)
    → ((k : ℕ) → host.get sessions k ≡ none)
    → Good (
        new {host = host} {coder = coder} shuffle sessions endpoints poolsize pipeline tls poll
          codec metrics sys)
      × (length
            (new {host = host} {coder = coder} shuffle sessions endpoints poolsize pipeline tls poll
              codec metrics sys).connect_queue
          ≡ poolsize * length endpoints)
unfolding new AllName
new-Good {net = net} coder shuffle sessions endpoints poolsize pipeline tls poll codec metrics sys
      kept empty =
    (
      record { proper = λ token s e. absurd (unnamed (sym (empty token) ∙ e)); named = tt },
      kept (pool poolsize endpoints) ∙ length-pool _ _ poolsize endpoints,
    )
  where
    unnamed : {s : Session net} → none ≡ some s → ⊥
    unnamed e = cc
