-- ===== src/Admin/Report.antt =====
-- src/admin.rs, `emit_log` and `emit_json`: what is printed at the end of a window, as data.
use rpc_perf.Base.{ℕ, ◌-◌, Option, none, some, List, [], ◌∷◌, ◌==◌, if◌then◌else◌}
use rpc_perf.Base.Bytes.{Bytes, codes}
use rpc_perf.Net.{Net}
use rpc_perf.Host.{Host}
use rpc_perf.Admin.{Console, Float}
use rpc_perf.Admin.Snapshot.{Snapshot, delta_count, measure}

-- `open` is an `i64`, by its bits.
pub record Connections : Type 0 where
  pub attempts : ℕ
  pub opened : ℕ
  pub errors : ℕ
  pub timeouts : ℕ
  pub open_count : ℕ

pub record Bucket : Type 0 where
  pub value : ℕ
  pub count : ℕ

pub record JsonSnapshot (float : Float) : Type 0 where
  pub window : ℕ
  pub interval : float.F64
  pub connections : Connections
  pub request_count : ℕ
  pub request_errors : ℕ
  pub response_count : ℕ
  pub response_errors : ℕ
  pub connect_count : ℕ
  pub connect_errors : ℕ
  pub get_count : ℕ
  pub hit_count : ℕ
  pub connect : List Bucket
  pub request : List Bucket

-- The values in the lines of `emit_log`; a line of latencies is there when a heatmap is.
pub record LogReport (float : Float) : Type 0 where
  pub window : ℕ
  pub connections : Connections
  pub request_rate : float.F64
  pub response_rate : float.F64
  pub connect_rate : float.F64
  pub request_success : float.F64
  pub response_success : float.F64
  pub connect_success : float.F64
  pub hit_rate : float.F64
  pub connect_latency : List (Bytes × ℕ)
  pub response_latency : List (Bytes × ℕ)

module _ (float : Float) where
  pub rate : Snapshot → Snapshot → Bytes → float.F64
  unfolding delta_count
  rate s other counter =
      float.div (float.of_u64 (delta_count s other counter))
        (float.secs (s.timestamp - other.timestamp))

  pub success_rate : Snapshot → Snapshot → Bytes → Bytes → float.F64
  unfolding rate
  success_rate s other total error =
      let hundred = float.of_u64 100 in
      if float.is_positive (rate s other total)
      then float.sub hundred
          (float.div (float.mul hundred (rate s other error)) (rate s other total))
      else hundred

  pub hitrate : Snapshot → Snapshot → Bytes → Bytes → float.F64
  unfolding rate
  hitrate s other total hit =
      if float.is_positive (rate s other total)
      then float.div (float.mul (float.of_u64 100) (rate s other hit)) (rate s other total)
      else float.of_u64 0

  unfoldable pub connections : Snapshot → Snapshot → ℕ → Connections
  unfolding delta_count
  connections s other open_count = record {
    attempts = delta_count s other (codes "connect");
    opened = delta_count s other (codes "session");
    errors = delta_count s other (codes "connect_ex");
    timeouts = delta_count s other (codes "connect_timeout");
    open_count = open_count;
  }

  -- The buckets that hold something.
  pub heatmap_to_buckets : List (ℕ × ℕ) → List Bucket
  heatmap_to_buckets [] = []
  heatmap_to_buckets ((high, count) ∷ summary) =
      let rest = heatmap_to_buckets summary in
      if count == 0 then rest else record { value = high; count = count } ∷ rest

  module _ {net : Net} {host : Host net} (console : Console host) where
    buckets : host.Sys → Option host.Heatmap → List Bucket
    unfolding heatmap_to_buckets
    buckets sys none = []
    buckets sys (some heatmap) = heatmap_to_buckets (console.summary heatmap sys)

    unfoldable pub emit_log :
        host.Sys
        → Option host.Heatmap
        → Option host.Heatmap
        → ℕ
        → ℕ
        → Snapshot
        → Snapshot
        → LogReport float
    unfolding success_rate hitrate connections measure
    emit_log sys connect_heatmap request_heatmap open_count window s other = record {
      window = window;
      connections = connections s other open_count;
      request_rate = rate s other (codes "request");
      response_rate = rate s other (codes "response");
      connect_rate = rate s other (codes "connect");
      request_success = success_rate s other (codes "request") (codes "request_ex");
      response_success = success_rate s other (codes "response") (codes "response_ex");
      connect_success = success_rate s other (codes "connect") (codes "connect_ex");
      hit_rate = hitrate s other (codes "request_get") (codes "response_hit");
      connect_latency = measure console sys connect_heatmap;
      response_latency = measure console sys request_heatmap;
    }

    -- `hit_count` is read from `REQUEST_GET` there too.
    unfoldable pub emit_json :
        host.Sys
        → Option host.Heatmap
        → Option host.Heatmap
        → ℕ
        → ℕ
        → Snapshot
        → Snapshot
        → JsonSnapshot float
    unfolding connections buckets
    emit_json sys connect_heatmap request_heatmap open_count window s other = record {
      window = window;
      interval = float.secs (s.timestamp - other.timestamp);
      connections = connections s other open_count;
      request_count = delta_count s other (codes "request");
      request_errors = delta_count s other (codes "request_ex");
      response_count = delta_count s other (codes "response");
      response_errors = delta_count s other (codes "response_ex");
      connect_count = delta_count s other (codes "connect");
      connect_errors = delta_count s other (codes "connect_ex");
      get_count = delta_count s other (codes "request_get");
      hit_count = delta_count s other (codes "request_get");
      connect = buckets sys connect_heatmap;
      request = buckets sys request_heatmap;
    }
