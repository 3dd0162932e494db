-- ===== src/Tests/Buffers.antt =====
-- src/session/buffer.rs at concrete buffers.
use rpc_perf.Base.{◌≡◌, refl, List, [], ◌∷◌, arith}
use rpc_perf.Base.Bytes.{Bytes, codes}
use rpc_perf.Base.Outcome.{ret}
use rpc_perf.Buffer.{Buffer, reserve}
use rpc_perf.Buffer.Grow.{Reserved, reserve-Reserved, available_capacity_lem}
use rpc_perf.Buffer.Queue.{Op, extends, consumes, run, queue_run, Holds, run-Holds}
use rpc_perf.Buffer.Gear.{Geared, reserve-Geared}
use rpc_perf.Tests.World.{loaded, loaded-IsValid, borrow-loaded}

abbrev full : Bytes
full = codes "0123456789012345678901234567890123456789012345678901234567890123"

abbrev calls : List Op
calls = extends (codes "abc") ∷ consumes 2 ∷ extends (codes "defg") ∷ []

run_example :
    (b' : Buffer) × (run (loaded (codes "xy")) calls ≡ ret b')
    × Holds (queue_run (codes "xy") calls) b'
run_example =
    run-Holds calls (loaded (codes "xy")) (codes "xy")
      (record {
        valid = loaded-IsValid (codes "xy") (omega arith);
        content = borrow-loaded (codes "xy") (omega arith);
      })
      (omega arith) (omega arith, tt)

reserve_example : Reserved (loaded full) 100 (reserve (loaded full) 100)
reserve_example =
    reserve-Reserved (loaded full) 100 (loaded-IsValid full (omega arith)) (omega arith)

gear_example : Geared 8 (loaded full) (reserve (loaded full) 64)
gear_example =
    reserve-Geared (loaded full) 64 8 (loaded-IsValid full (omega arith))
      (record { exponent = 6; power = refl }) (omega arith)
      (available_capacity_lem (loaded-IsValid full (omega arith))) (omega arith) (omega arith)
      (omega arith)
