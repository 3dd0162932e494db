-- ===== src/Admin/Snapshot/Registry.antt =====
-- src/metrics.rs: the statics as `metriken::metrics` lists them. `CONNECT_TIMEOUT` and `CLOSE` are
-- incremented nowhere; `WINDOW` belongs to the admin thread.
use rpc_perf.Base.{ℕ, some, List, [], ◌∷◌}
use rpc_perf.Base.Bytes.{codes}
use rpc_perf.Metrics.{Metrics}
use rpc_perf.Admin.Snapshot.{Metric, counter, gauge}

-- In the order of the file; the registry's own order is that of the linker.
unfoldable pub static_metrics : Metrics → ℕ → List Metric
static_metrics m window =
    counter (codes "connect")
      (record { description = some (codes "connect attempts"); value = m.connect })
    ∷ counter (codes "connect_ex") (record {
      description = some (codes "exceptions when calling connect");
      value = m.connect_ex;
    })
    ∷ counter (codes "connect_timeout")
        (record { description = some (codes "connect timeouts"); value = 0 })
    ∷ counter (codes "request")
        (record { description = some (codes "requests sent"); value = m.request })
    ∷ counter (codes "request_ex") (record {
      description = some (codes "exceptions when sending a request");
      value = m.request_ex;
    })
    ∷ counter (codes "request_get")
        (record { description = some (codes "get requests sent"); value = m.request_get })
    ∷ counter (codes "response")
        (record { description = some (codes "responses received"); value = m.response })
    ∷ counter (codes "response_ex") (record {
      description = some (codes "responses that indicated an error");
      value = m.response_ex;
    })
    ∷ counter (codes "response_hit") (record {
      description = some (codes "responses that indicated a cache hit");
      value = m.response_hit;
    })
    ∷ counter (codes "close")
        (record { description = some (codes "closed connections"); value = 0 })
    ∷ counter (codes "window")
        (record { description = some (codes "elapsed windows"); value = window })
    ∷ counter (codes "session")
        (record { description = some (codes "sessions created"); value = m.session })
    ∷ gauge (codes "open")
        (record { description = some (codes "open connections"); value = m.open_count })
    ∷ counter (codes "session_recv")
        (record { description = some (codes "session receive attempts"); value = m.session_recv })
    ∷ counter (codes "session_recv_ex") (record {
      description = some (codes "exceptions when calling receive on session");
      value = m.session_recv_ex;
    })
    ∷ counter (codes "session_recv_byte") (record {
      description = some (codes "bytes received for all sessions");
      value = m.session_recv_byte;
    })
    ∷ counter (codes "session_send")
        (record { description = some (codes "session send attempts"); value = m.session_send })
    ∷ counter (codes "session_send_ex") (record {
      description = some (codes "execptions when calling send on session");
      value = m.session_send_ex;
    })
    ∷ counter (codes "session_send_byte") (record {
      description = some (codes "bytes sent for all sessions");
      value = m.session_send_byte;
    })
    ∷ counter (codes "session_reuse") (record {
      description = some (codes "session reused with abbreviated TLS handshake");
      value = m.session_reuse;
    })
    ∷ []
