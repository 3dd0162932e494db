-- ===== src/Metrics.antt =====
-- src/metrics.rs: the process-wide counters that the modelled code updates. A counter is a number
-- of events, and does not wrap here.
use rpc_perf.Base.{ℕ, ◌+◌, ◌-◌, ◌%◌, ◌^◌}

pub record Metrics : Type 0 where
  pub connect : ℕ
  pub connect_ex : ℕ
  pub request : ℕ
  pub request_ex : ℕ
  pub request_get : ℕ
  pub response : ℕ
  pub response_ex : ℕ
  pub response_hit : ℕ
  pub session : ℕ
  pub session_reuse : ℕ
  -- an `i64`, by its bits
  pub open_count : ℕ
  pub session_recv : ℕ
  pub session_recv_ex : ℕ
  pub session_recv_byte : ℕ
  pub session_send : ℕ
  pub session_send_ex : ℕ
  pub session_send_byte : ℕ

abbrev pub zeroed : Metrics
zeroed = record {
  connect = 0;
  connect_ex = 0;
  request = 0;
  request_ex = 0;
  request_get = 0;
  response = 0;
  response_ex = 0;
  response_hit = 0;
  session = 0;
  session_reuse = 0;
  open_count = 0;
  session_recv = 0;
  session_recv_ex = 0;
  session_recv_byte = 0;
  session_send = 0;
  session_send_ex = 0;
  session_send_byte = 0;
}

-- `increment` and `decrement` of the gauge `OPEN`, which wraps.
unfoldable pub opened : Metrics → Metrics
opened m = record m { open_count = (m.open_count + 1) % 2 ^ 64 }

unfoldable pub closed : Metrics → Metrics
closed m = record m { open_count = (m.open_count + 2 ^ 64 - 1) % 2 ^ 64 }
