-- ===== src/Admin/Text/Order.antt =====
-- src/admin.rs: the texts do not depend on the order in which a `HashMap` gives its entries.
use rpc_perf.Base.{◌≡◌, refl, List, [], ◌++◌}
use mathlib.Core.List.{Perm}
use mathlib.Core.List.Perm
use rpc_perf.Base.Bytes.{Bytes, codes}
use rpc_perf.Base.Sort.{sort, sort-perm}
use rpc_perf.Base.Text.{join, replace, join-split_at}
use rpc_perf.Admin.Snapshot.{Snapshot, Entry}
use rpc_perf.Admin.Text.{pushed, exposed, human, json, prometheus}

-- The same snapshot, with its maps iterated in other orders.
pub reordered : Snapshot → List (Bytes × Entry) → List (Bytes × Entry) → Snapshot
reordered s counters gauges = record s { counters = counters; gauges = gauges }

module _ (s : Snapshot) {counters gauges : List (Bytes × Entry)} (p : Perm s.counters counters)
    (q : Perm s.gauges gauges) where
  pushed-perm :
      (lead colon : Bytes)
      → Perm (pushed lead colon s) (pushed lead colon (reordered s counters gauges))
  unfolding pushed reordered
  pushed-perm lead colon = Perm.append (Perm.map _ p) (Perm.append_right _ (Perm.map _ q))

  exposed-perm : Perm (exposed s) (exposed (reordered s counters gauges))
  unfolding exposed reordered
  exposed-perm = Perm.append (Perm.map _ p) (Perm.append_right _ (Perm.map _ q))

  -- The three texts of a snapshot, human, json and prometheus, stay the same when the counters
  -- and the gauges come in any other order: they do not depend on the order in which the hash
  -- maps are iterated.
  pub text-reordered :
      (human (reordered s counters gauges) ≡ human s)
      × (json (reordered s counters gauges) ≡ json s)
      × (prometheus (reordered s counters gauges) ≡ prometheus s)
  unfolding human json prometheus
  text-reordered =
      let h = sort-perm (pushed-perm [] (codes ": ")) in
      let j = sort-perm (pushed-perm (codes "\"") (codes "\": ")) in
      let e = sort-perm exposed-perm in (rw (← h) refl, rw (← j) refl, rw (← e) refl)

-- The names of Prometheus have no slashes: each becomes an underscore, and nothing else changes.
pub prometheus_lem :
    (s : Snapshot)
    → prometheus s ≡ replace b'/' b'_' (join (codes "\n") (sort (exposed s)) ++ codes "\n")
unfolding prometheus
prometheus_lem s = join-split_at b'/' b'_' _
