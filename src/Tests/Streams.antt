-- ===== src/Tests/Streams.antt =====
-- src/session/stream.rs at a concrete stream.
use rpc_perf.Base.{◌≡◌, refl, some, [], ◌∷◌}
use rpc_perf.Base.Outcome.{would_block}
use rpc_perf.Net.{Net, established, blocked}
use rpc_perf.Stream.Handshakes.{
  shake, reads, writes, start, again, attempts, run, shaking, Ends, run-Ends,
}
use rpc_perf.Tests.World.{network}

-- A handshake that takes one attempt for each byte, and one more.
abbrev slow : Net
slow = record network { handshake = λ t. elim t [ [] ↦ established [] | x ∷ xs ↦ blocked xs ] }

handshake_example :
    (run (shake ∷ reads 8 ∷ shake ∷ []) (shaking slow (1 ∷ 2 ∷ []))
      ≡ (some would_block ∷ some would_block ∷ some would_block ∷ [], shaking slow []))
    × Ends slow (1 ∷ 2 ∷ []) [] (shake ∷ reads 8 ∷ shake ∷ []) (writes (7 ∷ []) ∷ [])
unfolding attempts
handshake_example =
    run-Ends slow (1 ∷ 2 ∷ []) [] (shake ∷ reads 8 ∷ shake ∷ []) (writes (7 ∷ []) ∷ [])
      (again refl (again refl (start refl)))
