-- ===== src/Replay/Worker.antt =====
-- src/replay.rs, `Worker`: a fixed pool of sessions, each with one request at a time. The queue of
-- work is shared with the generator; what the worker pops is a
-- list here. An empty list stands for an empty queue.

pub mod Clock
use rpc_perf.Base.{
  ℕ, zero, suc, ◌+◌, ◌-◌, ◌*◌, ◌/◌, Bool, true, false, ◌&&◌, Option, none, some, List, [], ◌∷◌,
  ◌++◌, ltb, ◌==◌, if◌then◌else◌,
}
use rpc_perf.Base.Outcome.{Io, ok, err, would_block}
use rpc_perf.Base.Progress.{Progress, returns, panics, calls, fueled, unwrap, ◌>>=◌}
use rpc_perf.Metrics.{Metrics}
use rpc_perf.Net.{Net}
use rpc_perf.Rand.{Rand}
use rpc_perf.Session.{Session, flush, fill_buf, read_pending, write_pending}
use rpc_perf.Session
use rpc_perf.Session.Fields
use rpc_perf.Reply.{Reply, accepted, refused, incomplete}
use rpc_perf.Host.{Host}
use rpc_perf.Replay.{Request, write_request, decode}
use rpc_perf.Worker.Turn.{Event}

pub record Worker {net : Net} (host : Host net) (rand : Rand) : Type 0 where
  pub sessions : host.Slab
  pub ready_queue : List ℕ
  pub poll : net.Poll
  pub work : List Request
  pub request_heatmap : Option host.Heatmap
  pub rng : rand.Rng
  pub metrics : Metrics
  pub sys : host.Sys

module _ {net : Net} {host : Host net} {rand : Rand} where
  pub put_back : Worker host rand → ℕ → Session net → Worker host rand
  put_back w token s = record w { sessions = host.set w.sessions token s }

  pub send_request : Worker host rand → ℕ → Request → Progress (Worker host rand)
  unfolding put_back
  send_request w token request = do
    s ← unwrap (host.get w.sessions token)
    let m = w.metrics
    ((rng, m₁), s₁) ←
        calls (write_request rand net request w.rng (record m { request = m.request + 1 }) s)
    (_, s₂, m₂) ← calls (flush s₁ m₁)
    let (_, s₃, poll) = Session.reregister s₂ w.poll
    returns (put_back (record w { poll = poll; rng = rng; metrics = m₂ }) token s₃)

  -- `deregister` and `close`.
  pub shut : Worker host rand → ℕ → Session net → Worker host rand
  unfolding put_back
  shut w token s =
      let (_, poll) = Session.deregister s w.poll in
      put_back (record w { poll = poll }) token (Session.close s)

  pub again : Worker host rand → ℕ → Session net → Worker host rand
  unfolding put_back
  again w token s =
      let (_, s', poll) = Session.reregister s w.poll in
      put_back (record w { poll = poll }) token s'

  -- What follows a `do_handshake`.
  pub shaken : Worker host rand → ℕ → Io (Unit {0}) × Session net → Worker host rand
  unfolding shut put_back
  shaken w token (ok u, s) = put_back w token s
  shaken w token (err would_block, s) = put_back w token s
  shaken w token (err e, s) = shut w token s

  -- The latency in microseconds, which the source computes as an `f64`.
  pub measure : Option host.Heatmap → Worker host rand → Session net → Worker host rand
  measure none w s = w
  measure (some heatmap) w s =
      let (now, sys) = host.now w.sys in
      record w { sys = host.increment heatmap now ((now - s.timestamp) / 1000) sys }

  pub record_latency : Worker host rand → Session net → Worker host rand
  unfolding measure
  record_latency w s = measure w.request_heatmap w s

  -- The next request of the queue, or the session is ready.
  pub give : Worker host rand → ℕ → List Request → Progress (Worker host rand)
  unfolding send_request
  give w token [] = returns (record w { ready_queue = w.ready_queue ++ (token ∷ []) })
  give w token (request ∷ rest) = send_request (record w { work = rest }) token request

  pub next_request : Worker host rand → ℕ → Progress (Worker host rand)
  unfolding give
  next_request w token = give w token w.work

  -- The result of `decode`. `true` means that the event is done with.
  pub decoded :
      Worker host rand → ℕ → Reply × Session net × Metrics → Progress (Bool × Worker host rand)
  unfolding record_latency next_request put_back shut
  decoded w token (accepted, s, m) = do
    let w₁ = put_back (record w { metrics = record m { response = m.response + 1 } }) token s
    w₂ ← next_request (record_latency w₁ s) token
    returns (true, w₂)
  decoded w token (refused incomplete, s, m) =
      returns (true, put_back (record w { metrics = m }) token s)
  decoded w token (refused e, s, m) = returns (false, shut (record w { metrics = m }) token s)

  -- The result of `fill_buf`.
  pub filled :
      Worker host rand
      → ℕ
      → Io (Unit {0}) × Session net × Metrics
      → Progress (Bool × Worker host rand)
  unfolding decoded shut
  filled w token (err e, s, m) = returns (false, shut (record w { metrics = m }) token s)
  filled w token (ok u, s, m) =
      if read_pending s == 0
      then returns (false, shut (record w { metrics = m }) token s)
      else (do d ← calls (decode s m); decoded w token d)

  pub on_readable : Worker host rand → ℕ → Progress (Bool × Worker host rand)
  unfolding filled
  on_readable w token = do
    s ← unwrap (host.get w.sessions token)
    r ← fueled (fill_buf s w.metrics)
    filled w token r

  -- `flush` must succeed.
  pub flushed :
      Worker host rand → ℕ → Io (Unit {0}) × Session net × Metrics → Progress (Worker host rand)
  unfolding again put_back
  flushed w token (err e, s, m) = panics
  flushed w token (ok u, s, m) =
      let w₁ = record w { metrics = m } in
      returns (if ltb 0 (write_pending s) then again w₁ token s else put_back w₁ token s)

  pub on_writable : Worker host rand → ℕ → Progress (Worker host rand)
  unfolding flushed
  on_writable w token = do
    s ← unwrap (host.get w.sessions token)
    (if ltb 0 (write_pending s) then (calls (flush s w.metrics) >>= flushed w token) else returns w)

  -- A handshake that goes on. `true` means that the event is done with.
  pub handshaken : Worker host rand → ℕ → Progress (Bool × Worker host rand)
  unfolding shaken again
  handshaken w token = do
    s ← unwrap (host.get w.sessions token)
    let w₁ = shaken w token (Session.do_handshake s)
    s₁ ← unwrap (host.get w₁.sessions token)
    returns (if Fields.is_handshaking s₁ then (true, again w₁ token s₁) else (false, w₁))

  -- The rest of an event, if the part before it has not ended it.
  pub continue :
      Bool × Worker host rand
      → (Worker host rand → Progress (Bool × Worker host rand))
      → Progress (Bool × Worker host rand)
  continue (true, w) next = returns (true, w)
  continue (false, w) next = next w

  -- One event of the `for` loop.
  pub on_event : Worker host rand → Event → Progress (Worker host rand)
  unfolding shut handshaken on_readable on_writable continue
  on_event w event = do
    let token = event.token
    s ← unwrap (host.get w.sessions token)
    let w₁ = (if event.is_error then shut w token s else w)
    s₁ ← unwrap (host.get w₁.sessions token)
    shook ← (if Fields.is_handshaking s₁ then handshaken w₁ token else returns (false, w₁))
    read ←
        continue shook
          (λ w'. if event.is_readable then on_readable w' token else returns (false, w'))
    (_, w₂) ← continue read (λ w'.
        if event.is_writable
        then (on_writable w' token >>= λ w''. returns (false, w''))
        else returns (false, w'))
    returns w₂

  pub assign : Worker host rand → List ℕ → List Request → Progress (Worker host rand)
  unfolding send_request
  assign w [] work = returns w
  assign w (token ∷ tokens) [] = returns w
  assign w (token ∷ tokens) (request ∷ rest) =
      send_request (record w { ready_queue = tokens; work = rest }) token request

  -- Before it polls, the loop gives the first ready session a request, if there is one.
  pub dispatch : Worker host rand → Progress (Worker host rand)
  unfolding assign
  dispatch w = assign w w.ready_queue w.work

  pub on_events : Worker host rand → List Event → Progress (Worker host rand)
  unfolding on_event
  on_events w [] = returns w
  on_events w (event ∷ events) = do w' ← on_event w event; on_events w' events

  -- One round of `run`, with the events of its `poll`.
  abbrev pub turn : Worker host rand → List Event → Progress (Worker host rand)
  unfolding dispatch on_events
  turn w events = do w' ← dispatch w; on_events w' events
