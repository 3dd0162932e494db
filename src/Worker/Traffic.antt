-- ===== src/Worker/Traffic.antt =====
-- src/worker.rs: `send_request`, `do_read` and `do_write`.
pub mod Responses
pub mod Reads
pub mod Requests
use rpc_perf.Base.{
  ℕ, zero, suc, ◌+◌, ◌-◌, ◌/◌, Bool, true, false, Option, none, some, List, [], ◌∷◌, ◌++◌, ltb,
  ◌==◌, if◌then◌else◌,
}
use rpc_perf.Base.Outcome.{
  Outcome, ret, panic, Io, ok, err, would_block, interrupted, other, invalid_data,
}
use rpc_perf.Base.Progress.{Progress, returns, panics, runs_out, calls, fueled, ◌>>=◌}
use rpc_perf.Metrics.{Metrics}
use rpc_perf.Net.{Net}
use rpc_perf.Buffer
use rpc_perf.Session.{Session, flush, fill_buf, write_pending, read_pending}
use rpc_perf.Session.Fields.{set_outstanding, set_timestamp}
use rpc_perf.Reply.{Reply, accepted, refused, ParseError, incomplete, error, unknown}
use rpc_perf.Host.{Host}
use rpc_perf.Coder.{Coder}
use rpc_perf.Worker.{Worker, set_session, reregister}

-- `for _ in 0..count`: each request is counted and then encoded.
pub encode_requests :
    {net : Net} (coder : Coder net)
    → ℕ
    → coder.State
    → Session net
    → Metrics
    → Outcome ((coder.State × Metrics) × Session net)
encode_requests coder zero st s m = ret ((st, m), s)
encode_requests coder (suc n) st s m =
    elim (coder.encode st s (record m { request = m.request + 1 })) [
      | ret ((st', m'), s') ↦ encode_requests coder n st' s' m'
      | panic ↦ panic
    ]

-- How the loop `while session.outstanding() > 0` ends: it has had every response, or the next one
-- is incomplete, or it is an error.
pub data Ending : Type 0 where
  drained waiting broken : Ending

module _ {net : Net} {host : Host net} {coder : Coder net} where
  pub send_request : Worker host coder → ℕ → ℕ → Progress (Io (Unit {0}) × Worker host coder)
  unfolding encode_requests
  send_request w token count = elim (host.get w.sessions token) [
    | none ↦ returns (err other, w)
    | some s ↦ do
      ((st, m), s₁) ← calls (encode_requests coder count w.codec s w.metrics)
      let (now, sys) = host.now w.sys
      (_, s₂, m') ← calls (flush (set_timestamp (set_outstanding s₁ count) now) m)
      let w' = set_session (record w { codec = st; metrics = m'; sys = sys }) token s₂
      returns (if ltb 0 (write_pending s₂) then reregister w' token else (ok tt, w'))
  ]

  -- The latency in microseconds goes to the heatmap, and that in nanoseconds to the waterfall. Time
  -- does not run backwards, so `-` on ℕ is that of `Instant`.
  pub record_latency : Worker host coder → ℕ → Worker host coder
  record_latency w since = elim w.request_heatmap [
    | none ↦ w
    | some heatmap ↦
        let (now, sys) = host.now w.sys in
        let counted = host.increment heatmap now ((now - since) / 1000) sys in
        record w {
          sys = elim w.request_waterfall [
            | none ↦ counted
            | some waterfall ↦ host.increment waterfall now (now - since) counted
          ];
        }
  ]

  -- `f` is fuel.
  pub take_responses :
      ℕ → Worker host coder → Session net → Progress (Ending × Session net × Worker host coder)
  unfolding record_latency
  take_responses zero w s = if s.outstanding == 0 then returns (drained, s, w) else runs_out
  take_responses (suc f) w s = elim (s.outstanding == 0) [
    | true ↦ returns (drained, s, w)
    | false ↦ elim (coder.decode s w.metrics) [
      | panic ↦ panics
      | ret (refused incomplete, s', m) ↦ returns (waiting, s', record w { metrics = m })
      | ret (refused e, s', m) ↦ returns (broken, s', record w { metrics = m })
      | ret (accepted, s', m) ↦
          take_responses f
            (record_latency (record w { metrics = record m { response = m.response + 1 } })
              s'.timestamp)
            (set_outstanding s' (s'.outstanding - 1))
    ]
  ]

  -- The `match` on what the loop has come to.
  pub settle : ℕ → Ending × Session net × Worker host coder → Io (Unit {0}) × Worker host coder
  settle token (drained, s, w) =
      (ok tt, record (set_session w token s) { ready_queue = w.ready_queue ++ (token ∷ []) })
  settle token (waiting, s, w) = (ok tt, set_session w token s)
  settle token (broken, s, w) = (err invalid_data, set_session w token s)

  -- `fill_buf` and the calls of `do_read` after it; `again` is the recursive call after an interrupt.
  pub after_fill :
      (Worker host coder → Progress (Io (Unit {0}) × Worker host coder))
      → ℕ
      → Worker host coder
      → Session net
      → Io (Unit {0})
      → Progress (Io (Unit {0}) × Worker host coder)
  unfolding take_responses settle
  after_fill again token w s (ok u) =
      if read_pending s == 0
      then returns (err other, set_session w token s)
      else (do r ← take_responses s.outstanding w s; returns (settle token r))
  after_fill again token w s (err would_block) =
      returns (ok tt, (reregister (set_session w token s) token).1)
  after_fill again token w s (err interrupted) = again (set_session w token s)
  after_fill again token w s (err e) = returns (err e, set_session w token s)

  -- `f` is fuel for interrupted reads.
  pub do_read : ℕ → Worker host coder → ℕ → Progress (Io (Unit {0}) × Worker host coder)
  unfolding after_fill
  do_read zero w token = runs_out
  do_read (suc f) w token = elim (host.get w.sessions token) [
    | none ↦ returns (err other, w)
    | some s ↦ do
      (answer, s', m) ← fueled (fill_buf s w.metrics)
      after_fill (λ w'. do_read f w' token) token (record w { metrics = m }) s' answer
  ]

  pub do_write : Worker host coder → ℕ → Progress (Io (Unit {0}) × Worker host coder)
  do_write w token = elim (host.get w.sessions token) [
    | none ↦ returns (err other, w)
    | some s ↦
        if ltb 0 (write_pending s)
        then (do
          (r, s', m) ← calls (flush s w.metrics)
          returns (r, set_session (record w { metrics = m }) token s'))
        else returns (ok tt, w)
  ]
