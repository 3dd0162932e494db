-- ===== src/Tests/Sessions.antt =====
-- src/session/mod.rs at concrete sessions.
use rpc_perf.Base.{◌≡◌, arith, length, some}
use rpc_perf.Base.Bytes.{codes}
use rpc_perf.Base.Outcome.{Io, ret}
use rpc_perf.Buffer.{borrow}
use rpc_perf.Metrics.{Metrics, zeroed}
use rpc_perf.Stream as Stream
use rpc_perf.Session.{Session, write, flush, fill_buf}
use rpc_perf.Session.Ready.{IsReady}
use rpc_perf.Session.Fill.{Refilled, fill_buf-Refilled}
use rpc_perf.Session.Flush.{Wrote, Flushed, write-Wrote, flush-Flushed}
use rpc_perf.Tests.World.{network, network-Fits, holding, holding-IsReady, holding-room}

abbrev partial : Session network
partial = holding (codes "+O") (codes "K\r\n")

partial-IsReady : IsReady partial
partial-IsReady = holding-IsReady (codes "+O") (codes "K\r\n") (omega arith)

fill_buf_example :
    (out : Io (Unit {0}) × Session network × Metrics) × (fill_buf partial zeroed ≡ some out)
    × Refilled partial zeroed out
fill_buf_example = fill_buf-Refilled network-Fits partial zeroed partial-IsReady

flush_example :
    (out : Io (Unit {0}) × Session network × Metrics) × (flush partial zeroed ≡ ret out)
    × Flushed partial zeroed (Stream.write partial.stream (borrow partial.write_buffer)).0 out
flush_example = flush-Flushed network-Fits partial zeroed partial-IsReady

write_example :
    (s' : Session network) × (write partial (codes "PING\r\n")
      ≡ ret (length (codes "PING\r\n"), s'))
    × Wrote partial (codes "PING\r\n") s'
write_example =
    write-Wrote partial (codes "PING\r\n") partial-IsReady
      (holding-room (codes "+O") (codes "K\r\n") 6 (omega arith))
