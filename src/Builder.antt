-- ===== src/Builder.antt =====
-- src/lib.rs, `Builder::new`: the workers and the admin thread of a program, and the limiters and
-- heatmaps that they share. What a crate makes is a parameter, and so is what each `Worker::new` takes
-- from outside.
pub mod Shared
use rpc_perf.Base.{
  ℕ, zero, suc, ◌+◌, ◌*◌, ◌/◌, ◌%◌, ◌^◌, Bool, true, false, ◌&&◌, Option, none, some, List, [], ◌∷◌,
  ◌++◌, if◌then◌else◌,
}
use rpc_perf.Base.Bytes.{Bytes, codes}
use rpc_perf.Base.Outcome.{Outcome, ret, panic, ◌>>=◌}
use rpc_perf.Metrics.{Metrics}
use rpc_perf.Net.{Net}
use rpc_perf.Host.{Host}
use rpc_perf.Coder.{Coder}
use rpc_perf.Settings.{
  General, Debug, Connection, Request, Waterfall, RatelimitModel, Refill, windows, log_backup,
  ratelimit_model,
}
use rpc_perf.Worker.{Worker}
use rpc_perf.Worker.Start as Start
use rpc_perf.Admin.{Console}
use rpc_perf.Admin.Snapshot.{Metric}
use rpc_perf.Admin.Run.{Admin, Sections}
use rpc_perf.Admin.Run as Run

-- `Ratelimiter::new(threads, 1, rate)` with `set_strategy`, and `Heatmap::new(0, 10, 30, span,
-- resolution).unwrap()`, the span in seconds and the resolution in milliseconds. Each makes an object
-- outside and returns the handle of it, as `Arc::new` does: two calls with the same arguments are made
-- in two states, and nothing says that their handles are the same.
pub record Maker {net : Net} (host : Host net) : Type 0 where
  pub limiter : ℕ → ℕ → Refill → host.Sys → host.Limiter × host.Sys
  pub heatmap : ℕ → ℕ → host.Sys → Outcome (host.Heatmap × host.Sys)

-- What a `Worker::new` takes from outside the configuration.
pub record Supply {net : Net} (host : Host net) (coder : Coder net) : Type 0 where
  pub shuffle : List (net.Addr × Option net.SslSession) → List (net.Addr × Option net.SslSession)
  pub sessions : host.Slab
  pub poll : net.Poll
  pub codec : coder.State
  pub metrics : Metrics
  pub sys : host.Sys

pub record Builder {net : Net} (host : Host net) (coder : Coder net) : Type 0 where
  pub admin : Admin host
  pub workers : List (Worker host coder)

pub record Config {net : Net} (host : Host net) : Type 0 where
  pub general : General
  pub debug : Debug
  pub connection : Connection
  pub request : Request
  pub waterfall : Waterfall
  pub endpoints : List net.Addr
  pub tls : Option host.Connector

unwrap_or : Option Bytes → Bytes → Bytes
unwrap_or none default = default
unwrap_or (some s) default = s

-- The file, its backup and its size; `none` is the standard output.
file_output : Option Bytes → Debug → Option (Bytes × Bytes × ℕ)
unfolding unwrap_or log_backup
file_output none d = none
file_output (some file) d =
    some (file, unwrap_or (log_backup d) (file ++ codes ".old"), d.log_max_size)

pub debug_output : Debug → Option (Bytes × Bytes × ℕ)
unfolding file_output
debug_output d = file_output d.log_file d

pub is_some {ℓ} : {A : Type ℓ} → Option A → Bool
is_some none = false
is_some (some a) = true

module _ {net : Net} {host : Host net} (maker : Maker host) where
  pub ratelimit : ℕ → Option RatelimitModel → Option ℕ → host.Sys → Option host.Limiter × host.Sys
  unfolding ratelimit_model
  ratelimit threads model none sys = (none, sys)
  ratelimit threads model (some r) sys =
      let (limiter, sys') = maker.limiter threads r (ratelimit_model model) sys in
      (some limiter, sys')

  -- A heatmap over the whole run, when a file is named and the windows are limited.
  pub waterfall_heatmap :
      Option Bytes → Option ℕ → ℕ → ℕ → host.Sys → Outcome (Option host.Heatmap × host.Sys)
  waterfall_heatmap none limit secs resolution sys = ret (none, sys)
  waterfall_heatmap (some file) none secs resolution sys = ret (none, sys)
  waterfall_heatmap (some file) (some n) secs resolution sys = do
    (heatmap, sys') ← maker.heatmap (secs * n % 2 ^ 64) resolution sys
    ret (some heatmap, sys')

module _ {net : Net} {host : Host net} where
  abbrev pub sections : Config host → Sections
  sections config = record { general = config.general; waterfall = config.waterfall }

module _ {net : Net} {host : Host net} {coder : Coder net} where
  pub equip :
      Worker host coder
      → Option host.Limiter
      → Option host.Limiter
      → Option host.Limiter
      → Option host.Heatmap
      → Option host.Heatmap
      → Option host.Heatmap
      → Worker host coder
  equip w connect reconnect request connect_heatmap request_heatmap request_waterfall =
      let w₁ = Start.set_connect_ratelimit w connect in
      let w₂ = Start.set_reconnect_ratelimit w₁ reconnect in
      let w₃ = Start.set_request_ratelimit w₂ request in
      let w₄ = Start.set_connect_heatmap w₃ connect_heatmap in
      let w₅ = Start.set_request_heatmap w₄ request_heatmap in
      Start.set_request_waterfall w₅ request_waterfall

  pub start_worker : Config host → Supply host coder → Worker host coder
  start_worker config s =
      Start.new s.shuffle s.sessions config.endpoints config.connection.poolsize
        config.connection.pipeline config.tls s.poll s.codec s.metrics s.sys

  -- The loop over the threads.
  pub start_workers :
      ℕ
      → (Supply host coder → Worker host coder)
      → (ℕ → Supply host coder)
      → List (Worker host coder)
  start_workers zero make supply = []
  start_workers (suc n) make supply = start_workers n make supply ++ (make (supply n) ∷ [])

  -- Once the limiters and the heatmaps are made.
  pub assemble :
      Config host
      → (ℕ → Supply host coder)
      → Admin host
      → Option host.Limiter
      → Option host.Limiter
      → Option host.Limiter
      → host.Heatmap
      → host.Heatmap
      → Option host.Heatmap
      → Builder host coder
  unfolding equip start_worker start_workers
  assemble config supply admin connect reconnect request connect_heatmap request_heatmap
        request_waterfall =
      let admin₁ = Run.set_connect_heatmap admin (some connect_heatmap) in
      let admin₂ = Run.set_reconnect_ratelimit admin₁ reconnect in
      let admin₃ = Run.set_request_heatmap admin₂ (some request_heatmap) in
      let admin₄ = Run.set_request_ratelimit admin₃ request in
      record {
        admin = Run.set_request_waterfall admin₄ request_waterfall;
        workers =
            start_workers config.general.threads
              (λ s.
                equip (start_worker config s) connect reconnect request (some connect_heatmap)
                  (some request_heatmap) request_waterfall)
              supply;
      }

  unfoldable pub new :
      Console host
      → Maker host
      → Config host
      → (ℕ → Supply host coder)
      → List Metric
      → ℕ
      → ℕ
      → host.Sys
      → Outcome (Builder host coder)
  unfolding ratelimit waterfall_heatmap assemble windows is_some
  new console maker config supply metrics taken window sys = do
    let threads = config.general.threads
    let model = config.connection.model
    let (connect, sys₁) = ratelimit maker threads model config.connection.ratelimit sys
    let (reconnect, sys₂) = ratelimit maker threads model config.connection.reconnect sys₁
    let (request, sys₃) = ratelimit maker threads config.request.model config.request.ratelimit sys₂
    (connect_heatmap, sys₄) ← maker.heatmap config.general.interval_secs 1000 sys₃
    (request_heatmap, sys₅) ← maker.heatmap config.general.interval_secs 1000 sys₄
    (request_waterfall, sys₆) ←
        waterfall_heatmap maker config.waterfall.file (windows config.general)
          config.general.interval_secs config.waterfall.resolution sys₅
    let admin =
        Run.new console (some (sections config)) (is_some config.general.admin) metrics taken window
          sys₆
    ret (
        assemble config supply admin connect reconnect request connect_heatmap request_heatmap
          request_waterfall)
