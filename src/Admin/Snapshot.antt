-- ===== src/Admin/Snapshot.antt =====
-- src/admin.rs, `Snapshot`: the metrics at a moment. A `HashMap` is the list of its entries in the
-- order in which they are iterated, which is left open.
pub mod Registry
pub mod Deltas
use rpc_perf.Base.{
  ℕ, ◌+◌, ◌-◌, ◌%◌, ◌^◌, ◌≡◌, Bool, true, false, Option, none, some, List, [], ◌∷◌, if◌then◌else◌,
  ltb, not,
}
use mathlib.Core.List.{map}
use rpc_perf.Base.Bytes.{Bytes, codes, bytes_eq}
use rpc_perf.Net.{Net}
use rpc_perf.Host.{Host}
use rpc_perf.Admin.{Console}

-- `SnapshotEntry`; an `i64` is held by its bits.
pub record Entry : Type 0 where
  pub description : Option Bytes
  pub value : ℕ

pub record Snapshot : Type 0 where
  pub counters : List (Bytes × Entry)
  pub gauges : List (Bytes × Entry)
  pub timestamp : ℕ
  pub connect_percentiles : List (Bytes × ℕ)
  pub request_percentiles : List (Bytes × ℕ)

-- A metric of the registry: a name and an entry, or one that is neither a counter nor a gauge.
pub data Metric : Type 0 where
  counter gauge : Bytes → Entry → Metric
  opaque : Metric

-- `HashMap::insert` and `HashMap::get`.
unfoldable pub insert : {V : Type 0} → Bytes → V → List (Bytes × V) → List (Bytes × V)
insert k v [] = (k, v) ∷ []
insert k v ((j, w) ∷ m) = if bytes_eq j k then (k, v) ∷ m else (j, w) ∷ insert k v m

unfoldable pub get : {V : Type 0} → Bytes → List (Bytes × V) → Option V
get k [] = none
get k ((j, v) ∷ m) = if bytes_eq j k then some v else get k m

-- The loop over the registry.
unfoldable pub collect :
    List Metric
    → List (Bytes × Entry)
    → List (Bytes × Entry)
    → List (Bytes × Entry) × List (Bytes × Entry)
unfolding insert
collect [] counters gauges = (counters, gauges)
collect (counter name entry ∷ metrics) counters gauges =
    collect metrics (insert name entry counters) gauges
collect (gauge name entry ∷ metrics) counters gauges =
    collect metrics counters (insert name entry gauges)
collect (opaque ∷ metrics) counters gauges = collect metrics counters gauges

abbrev percentiles : List (Bytes × ℕ)
percentiles =
    (codes "p25", 2500)
    ∷ (codes "p50", 5000)
    ∷ (codes "p75", 7500)
    ∷ (codes "p90", 9000)
    ∷ (codes "p99", 9900)
    ∷ (codes "p999", 9990)
    ∷ (codes "p9999", 9999)
    ∷ []

or_zero : Option ℕ → ℕ
or_zero none = 0
or_zero (some n) = n

module _ {net : Net} {host : Host net} (console : Console host) where
  unfoldable pub measure : host.Sys → Option host.Heatmap → List (Bytes × ℕ)
  unfolding or_zero
  measure sys none = []
  measure sys (some heatmap) =
      map (λ (p : Bytes × ℕ). (p.0, or_zero (console.percentile heatmap p.1 sys))) percentiles

  unfoldable pub new :
      host.Sys → List Metric → ℕ → Option host.Heatmap → Option host.Heatmap → Snapshot
  unfolding collect measure
  new sys metrics now connect_heatmap request_heatmap =
      let (counters, gauges) = collect metrics [] [] in
      record {
        counters = counters;
        gauges = gauges;
        timestamp = now;
        connect_percentiles = measure sys connect_heatmap;
        request_percentiles = measure sys request_heatmap;
      }

unfoldable pub value_of : Option Entry → ℕ
value_of none = 0
value_of (some entry) = entry.value

-- A counter of a snapshot, and 0 where it has none.
unfoldable pub count : Snapshot → Bytes → ℕ
unfolding value_of
count s name = value_of (get name s.counters)

-- `this - other` on `u64`, which wraps.
unfoldable pub delta_count : Snapshot → Snapshot → Bytes → ℕ
unfolding count
delta_count s other name = (count s name + 2 ^ 64 - count other name) % 2 ^ 64
