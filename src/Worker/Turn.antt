-- ===== src/Worker/Turn.antt =====
-- src/worker.rs, `run`: one round of the loop, with the events that `poll` has reported.
pub mod Serve
pub mod Events
pub mod Rounds
use rpc_perf.Base.{
  ℕ, zero, suc, ◌+◌, ◌-◌, ◌/◌, Bool, true, false, not, ◌&&◌, Option, none, some, List, [], ◌∷◌,
  ◌++◌, ◌==◌, if◌then◌else◌,
}
use rpc_perf.Base.Outcome.{Io, ok, err, would_block}
use rpc_perf.Base.Progress.{Progress, returns, panics, runs_out, unwrap, ◌>>=◌}
use rpc_perf.Metrics.{Metrics, opened}
use rpc_perf.Net.{Net}
use rpc_perf.Host.{Host}
use rpc_perf.Coder.{Coder}
use rpc_perf.Worker.{
  Worker, connect, register, disconnect, is_connecting, is_handshaking, handshake, reregister,
  connected, timestamp,
}
use rpc_perf.Worker.Traffic.{send_request, do_read, do_write}

-- An event of mio, for the session that its token names.
pub record Event : Type 0 where
  pub token : ℕ
  pub is_error : Bool
  pub is_readable : Bool
  pub is_writable : Bool

-- `r.try_wait().is_ok()`; without a limiter the answer is `free`.
pub permit : {net : Net} (host : Host net) → Option host.Limiter → Bool → host.Sys → Bool × host.Sys
permit host none free sys = (free, sys)
permit host (some r) free sys = host.try_wait r sys

-- The loop that takes credits: until `pipeline` are there or the limiter refuses. `f` is fuel.
pub take_credits :
    {net : Net} (host : Host net) → ℕ → host.Limiter → ℕ → ℕ → host.Sys → Progress (ℕ × host.Sys)
take_credits host zero r pipeline credits sys = runs_out
take_credits host (suc f) r pipeline credits sys =
    let (allowed, sys') = host.try_wait r sys in
    elim allowed [
      | false ↦ returns (credits, sys')
      | true ↦ elim (credits + 1 == pipeline) [
        | true ↦ returns (credits + 1, sys')
        | false ↦ take_credits host f r pipeline (credits + 1) sys'
      ]
    ]

module _ {net : Net} {host : Host net} {coder : Coder net} where
  -- `unwrap` of a `Result`.
  pub must : Io (Unit {0}) × Worker host coder → Progress (Worker host coder)
  must (ok u, w) = returns w
  must (err e, w) = panics

  -- A connect that fails is only reported.
  pub join : Io ℕ × Worker host coder → Progress (Worker host coder)
  unfolding must
  join (ok token, w) = must (register w token)
  join (err e, w) = returns w

  unfoldable pub connect_next : Worker host coder → Progress (Worker host coder)
  unfolding permit join
  connect_next w = elim w.connect_queue [
    | [] ↦ returns w
    | (addr, ticket) ∷ rest ↦
        let (allowed, sys) = permit host w.connect_ratelimit true w.sys in
        if allowed
        then join (connect (record w { connect_queue = rest; sys = sys }) addr ticket)
        else returns (record w { sys = sys })
  ]

  pub credit : Worker host coder → ℕ → Progress (ℕ × host.Sys)
  unfolding take_credits
  credit w credits = elim w.request_ratelimit [
    | none ↦ returns (w.pipeline, w.sys)
    | some r ↦ take_credits host (w.pipeline - credits + 1) r w.pipeline credits w.sys
  ]

  -- `disconnect` after a failed `send_request`: the session must be there.
  pub given_up : Io (Unit {0}) × Worker host coder → Progress (Worker host coder)
  given_up (ok u, w) =
      returns (record w { metrics = record w.metrics { request_ex = w.metrics.request_ex + 1 } })
  given_up (err e, w) = panics

  pub sent : ℕ → Io (Unit {0}) × Worker host coder → Progress (ℕ × Worker host coder)
  unfolding given_up
  sent token (ok u, w) = returns (0, w)
  sent token (err e, w) = do w' ← given_up (disconnect w token); returns (0, w')

  -- Requests are sent once there is a credit for each; otherwise the session waits.
  pub spend : Worker host coder → ℕ → ℕ × host.Sys → Progress (ℕ × Worker host coder)
  unfolding sent
  spend w token (credits, sys) =
      if credits == w.pipeline
      then (do r ← send_request (record w { sys = sys }) token w.pipeline; sent token r)
      else returns (credits, record w { sys = sys; ready_queue = token ∷ w.ready_queue })

  -- A ready session is closed, or sends its requests, or has to wait for credits.
  unfoldable pub serve_next : ℕ → Worker host coder → Progress (ℕ × Worker host coder)
  unfolding permit credit spend
  serve_next credits w = elim w.ready_queue [
    | [] ↦ returns (credits, w)
    | token ∷ rest ↦
        let (reconnect, sys) = permit host w.reconnect_ratelimit false w.sys in
        let w₁ = record w { ready_queue = rest; sys = sys } in
        if reconnect
        then returns (credits, (disconnect w₁ token).1)
        else (do c ← credit w₁ credits; spend w₁ token c)
  ]

  -- A connection that could not be made is counted, and closed.
  pub refuse : Worker host coder → ℕ → Worker host coder
  refuse w token =
      let m = w.metrics in
      (disconnect (record w { metrics = record m { connect_ex = m.connect_ex + 1 } }) token).1

  -- What follows a `handshake`: nothing but an error other than `WouldBlock` ends the session.
  pub shaken : ℕ → Io (Unit {0}) × Worker host coder → Worker host coder
  unfolding refuse
  shaken token (ok u, w) = w
  shaken token (err would_block, w) = w
  shaken token (err e, w) = refuse w token

  -- The second `match` on `is_handshaking`. `false` means that the event is done with.
  pub settled : Worker host coder → ℕ → Bool × Worker host coder
  unfolding refuse
  settled w token = elim (is_handshaking w token) [
    | some true ↦ (false, (reregister w token).1)
    | some false ↦ (true, w)
    | none ↦ (false, refuse w token)
  ]

  -- The handshake comes first.
  pub shake : Worker host coder → ℕ → Bool × Worker host coder
  unfolding shaken settled
  shake w token = elim (is_handshaking w token) [
    | some true ↦ settled (shaken token (handshake w token)) token
    | _ ↦ (true, w)
  ]

  -- The latency of a connect, in microseconds.
  pub record_connect : Worker host coder → Option ℕ → Worker host coder
  record_connect w none = w
  record_connect w (some prev) = elim w.connect_heatmap [
    | none ↦ w
    | some heatmap ↦
        let (now, sys) = host.now w.sys in
        record w { sys = host.increment heatmap now ((now - prev) / 1000) sys }
  ]

  -- The session is connected: it is counted, its latency recorded, and it is ready.
  pub greet : Worker host coder → ℕ → Progress (Worker host coder)
  unfolding record_connect
  greet w token = do
    w₁ ← unwrap (connected w token)
    let w₂ = record w₁ { metrics = record (opened w₁.metrics) { session = w₁.metrics.session + 1 } }
    let w₃ = record_connect w₂ (timestamp w₂ token)
    returns (record w₃ { ready_queue = w₃.ready_queue ++ (token ∷ []) })

  -- An error of a handler closes the session and is done with the event.
  pub close_on_error : ℕ → Io (Unit {0}) × Worker host coder → Bool × Worker host coder
  close_on_error token (ok u, w) = (true, w)
  close_on_error token (err e, w) = (false, (disconnect w token).1)

  pub on_readable : ℕ → Worker host coder → ℕ → Progress (Bool × Worker host coder)
  unfolding close_on_error
  on_readable f w token = do r ← do_read f w token; returns (close_on_error token r)

  pub on_writable : Worker host coder → ℕ → Progress (Bool × Worker host coder)
  unfolding greet close_on_error
  on_writable w token = do
    connecting ← unwrap (is_connecting w token)
    handshaking ← unwrap (is_handshaking w token)
    w₁ ←
        (if connecting && not handshaking
          then greet w token
          else returns (if connecting then record w { metrics = opened w.metrics } else w))
    r ← do_write w₁ token
    returns (close_on_error token r)

  pub on_error : Worker host coder → ℕ → Progress (Worker host coder)
  on_error w token = do
    connecting ← unwrap (is_connecting w token)
    let m = w.metrics
    let w₁ =
        (if connecting
          then record w { metrics = record m { connect_ex = m.connect_ex + 1 } }
          else w)
    returns (disconnect w₁ token).1

  -- The rest of an event, if the part before it has not ended it.
  pub continue :
      Bool × Worker host coder
      → (Worker host coder → Progress (Bool × Worker host coder))
      → Progress (Bool × Worker host coder)
  continue (true, w) next = next w
  continue (false, w) next = returns (false, w)

  -- One event of the `for` loop.
  pub on_event : ℕ → Worker host coder → Event → Progress (Worker host coder)
  unfolding on_error shake on_readable on_writable continue
  on_event f w event =
      let token = event.token in
      if event.is_error then on_error w token else (do
        read ←
            continue (shake w token)
              (λ w'. if event.is_readable then on_readable f w' token else returns (true, w'))
        written ←
            continue read
              (λ w'. if event.is_writable then on_writable w' token else returns (true, w'))
        (_, w') ← continue written (λ w''. returns (true, (reregister w'' token).1))
        returns w')

  unfoldable pub on_events : ℕ → Worker host coder → List Event → Progress (Worker host coder)
  unfolding on_event
  on_events f w [] = returns w
  on_events f w (event ∷ events) = do w' ← on_event f w event; on_events f w' events

  -- One round of `loop`: `credits` is its local variable, and the events are those of `poll`.
  unfoldable pub turn : ℕ → ℕ → Worker host coder → List Event → Progress (ℕ × Worker host coder)
  unfolding connect_next serve_next on_events
  turn f credits w events = do
    w₁ ← connect_next w
    (credits', w₂) ← serve_next credits w₁
    w₃ ← on_events f w₂ events
    returns (credits', w₃)
