-- ===== src/Tests/Replays.antt =====
-- src/replay.rs at concrete requests, responses and traces.
use rpc_perf.Base.{◌≡◌, refl, arith, [], ◌∷◌, none, length}
use rpc_perf.Base.Bytes.{codes}
use rpc_perf.Base.Decimal.{to_decimal}
use rpc_perf.Base.Progress.{returns}
use rpc_perf.Metrics.{zeroed}
use rpc_perf.Session.{Session}
use rpc_perf.Writer.{Emitted}
use rpc_perf.Rand.{sample_bytes}
use rpc_perf.Codec.Memcache as Memcache
use rpc_perf.Replay.{Request, set, delete, write_request, decode}
use rpc_perf.Replay.Requests.{text, spent, counts, replay_request}
use rpc_perf.Replay.Responses.{Agrees, decode-Agrees}
use rpc_perf.Replay.Trace.{binary}
use rpc_perf.Replay.Trace.Records.{
  Operation, IsOperation, Entry, AllEntry, trace, Replays, binary-Replays,
}
use rpc_perf.Replay.Worker.{Worker, send_request}
use rpc_perf.Replay.Worker.Clock.{Undated, send_request-Undated}
use rpc_perf.Tests.World.{network, network-Fits, counter, holding, holding-IsReady, holding-room}
use rpc_perf.Tests.Machine.{machine, machine-Keeps}

abbrev idle : Session network
idle = holding [] []

abbrev storing : Request
storing = set (codes "k1") 3 60

replay_request_example :
    Emitted
      (write_request counter network storing 0 zeroed)
      (spent counter storing 0, counts storing zeroed)
      (text (λ n. (sample_bytes counter n 0).0) storing)
      idle
unfolding text to_decimal sample_bytes
replay_request_example =
    replay_request counter network 0 storing zeroed idle (holding-IsReady [] [] (omega arith))
      (holding-room [] [] (length (text (λ n. (sample_bytes counter n 0).0) storing)) (omega arith))

abbrev response : Session network
response = holding (codes "VALUE k1 0 1\r\nx\r\nEND\r\n") []

decode_example : Agrees zeroed (decode response zeroed) (Memcache.decode response zeroed)
decode_example =
    decode-Agrees response zeroed
      (holding-IsReady (codes "VALUE k1 0 1\r\nx\r\nEND\r\n") [] (omega arith))

-- A get, and an operation that is not replayed.
abbrev reading : Entry
reading = record {
  timestamp = 7;
  key = 42;
  key_length = 6;
  value_length = 0;
  operation = Operation.get;
  ttl = 0;
}

abbrev skipped : Entry
skipped = record {
  timestamp = 8;
  key = 43;
  key_length = 6;
  value_length = 0;
  operation = Operation.skipped 5;
  ttl = 0;
}

binary_example :
    Replays (reading ∷ skipped ∷ []) (binary 3 (trace (reading ∷ skipped ∷ []) (1 ∷ 2 ∷ [])))
unfolding AllEntry IsOperation
binary_example =
    binary-Replays 3 (reading ∷ skipped ∷ []) (1 ∷ 2 ∷ [])
      (
        record {
          timestamp = omega arith;
          key = omega arith;
          key_length = omega arith;
          value_length = omega arith;
          operation = tt;
          ttl = omega arith;
        },
        (
          record {
            timestamp = omega arith;
            key = omega arith;
            key_length = omega arith;
            value_length = omega arith;
            operation = omega arith;
            ttl = omega arith;
          },
          tt,
        ),
      )
      (omega arith) (omega arith)

abbrev player : Worker machine counter
player = record {
  sessions = idle ∷ [];
  ready_queue = [];
  poll = tt;
  work = [];
  request_heatmap = none;
  rng = 0;
  metrics = zeroed;
  sys = 0;
}

replay_send_example :
    (w' : Worker machine counter) × (send_request player 0 (delete (codes "k1")) ≡ returns w')
    × Undated machine 0 idle.timestamp w'.sessions
unfolding text
replay_send_example =
    send_request-Undated machine-Keeps network-Fits player 0 (delete (codes "k1")) idle refl
      (holding-IsReady [] [] (omega arith))
      (holding-room [] [] (length (text (λ n. (sample_bytes counter n 0).0) (delete (codes "k1"))))
        (omega arith))
