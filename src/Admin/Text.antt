-- ===== src/Admin/Text.antt =====
-- src/admin.rs: the three texts that `Snapshot` is served as.
pub mod Order
use rpc_perf.Base.{ℕ, Option, none, some, List, [], ◌∷◌, ◌++◌}
use mathlib.Core.List.{map}
use rpc_perf.Base.Bytes.{Bytes, codes}
use rpc_perf.Base.Decimal.{to_decimal}
use rpc_perf.Base.Sort.{sort}
use rpc_perf.Base.Text.{signed, split_at, join}
use rpc_perf.Admin.Snapshot.{Snapshot, Entry}

-- `"{}: {}"`, with what stands before the label and between it and the value.
line : Bytes → Bytes → Bytes → Bytes → Bytes
line before label between value = before ++ (label ++ (between ++ value))

-- What `human` and `json` push, with what stands before a label and between it and its value.
pub pushed : Bytes → Bytes → Snapshot → List Bytes
unfolding line
pushed lead colon s =
    map (λ (e : Bytes × Entry). line lead e.0 colon (to_decimal e.1.value)) s.counters
    ++ (map (λ (e : Bytes × Entry). line lead e.0 colon (signed e.1.value)) s.gauges
        ++ (map
              (λ (p : Bytes × ℕ).
                line (lead ++ codes "connect_latency/") p.0 colon (to_decimal p.1))
              s.connect_percentiles
            ++ map
                (λ (p : Bytes × ℕ).
                  line (lead ++ codes "response_latency/") p.0 colon (to_decimal p.1))
                s.request_percentiles))

unfoldable pub human : Snapshot → Bytes
unfolding pushed
human s = join (codes "\n") (sort (pushed [] (codes ": ") s)) ++ codes "\n"

unfoldable pub json : Snapshot → Bytes
unfolding pushed
json s = codes "{" ++ (join (codes ",") (sort (pushed (codes "\"") (codes "\": ") s)) ++ codes "}")

-- `"# TYPE {} kind\n{} {}"`, after a `HELP` line if there is a description.
pub typed : Bytes → Bytes → Bytes → Bytes
typed kind name value =
    codes "# TYPE "
    ++ (name ++ (codes " " ++ (kind ++ (codes "\n" ++ (name ++ (codes " " ++ value))))))

pub helped : Bytes → Bytes → Option Bytes → Bytes → Bytes
unfolding typed
helped kind name none value = typed kind name value
helped kind name (some description) value =
    codes "# HELP "
    ++ (name ++ (codes " " ++ (description ++ (codes "\n" ++ typed kind name value))))

pub percentile_line : Bytes → Bytes × ℕ → Bytes
percentile_line label (percentile, value) =
    codes "# TYPE "
    ++ (label
        ++ (codes " gauge\n"
            ++ (label
                ++ (codes "{percentile=\"" ++ (percentile ++ (codes "\"} " ++ to_decimal value))))))

pub exposed : Snapshot → List Bytes
unfolding helped percentile_line
exposed s =
    map (λ (e : Bytes × Entry). helped (codes "counter") e.0 e.1.description (to_decimal e.1.value))
      s.counters
    ++ (map (λ (e : Bytes × Entry). helped (codes "gauge") e.0 e.1.description (signed e.1.value))
          s.gauges
        ++ (map (percentile_line (codes "connect_latency")) s.connect_percentiles
            ++ map (percentile_line (codes "response_latency")) s.request_percentiles))

unfoldable pub prometheus : Snapshot → Bytes
unfolding exposed
prometheus s =
    let content = join (codes "\n") (sort (exposed s)) ++ codes "\n" in
    join (codes "_") (split_at b'/' content)
