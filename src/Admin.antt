-- ===== src/Admin.antt =====
-- src/admin.rs: the thread that counts windows, prints what has changed in each, and answers HTTP
-- requests. What it takes from the crates heatmap and ratelimit beyond `Host` is a parameter.
pub mod Snapshot
pub mod Text
pub mod Report
pub mod Routes
pub mod Run
use rpc_perf.Base.{ℕ, Bool, Option, none, List}
use rpc_perf.Net.{Net}
use rpc_perf.Host.{Host}

-- `percentile` takes hundredths of a percent; it and `summary` give the `high` of a bucket, and
-- `summary` the `count` too.
pub record Console {net : Net} (host : Host net) : Type 0 where
  pub percentile : host.Heatmap → ℕ → host.Sys → Option ℕ
  pub summary : host.Heatmap → host.Sys → List (ℕ × ℕ)
  pub set_rate : host.Limiter → ℕ → host.Sys → host.Sys

-- `f64`: a `u64` as one, the seconds in a number of nanoseconds, and arithmetic.
pub record Float : Type 1 where
  pub F64 : Type 0
  pub of_u64 : ℕ → F64
  pub secs : ℕ → F64
  pub sub : F64 → F64 → F64
  pub mul : F64 → F64 → F64
  pub div : F64 → F64 → F64
  pub is_positive : F64 → Bool
