-- ===== src/Worker.antt =====
-- src/worker.rs: the event loop of a thread, over the sessions it has opened. `self`, the
-- process-wide counters and the world outside are one state. The macros of src/macros.rs,
-- `get_session!` and `get_session_mut!`, are the match on `host.get`.
pub mod Traffic
pub mod Turn
pub mod Sessions
pub mod Connect
pub mod Sound
pub mod Start
pub mod Connector
use rpc_perf.Base.{
  ℕ, ◌+◌, ◌*◌, ◌/◌, ◌≡◌, Bool, true, false, Option, none, some, List, [], ◌∷◌, ◌++◌, if◌then◌else◌,
}
use rpc_perf.Base.Outcome.{Io, ok, err, other}
use rpc_perf.Metrics.{Metrics, closed}
use rpc_perf.Net.{Net, established, blocked, failed}
use rpc_perf.Session.{Session, plain_with_capacity, tls_with_capacity, handshaking_with_capacity}
use rpc_perf.Session
use rpc_perf.Session.Fields.{set_token, set_timestamp, peer_addr, ssl_session}
use rpc_perf.Session.Fields
use rpc_perf.Host.{Host}
use rpc_perf.Coder.{Coder}

pub record Worker {net : Net} (host : Host net) (coder : Coder net) : Type 0 where
  pub codec : coder.State
  pub connect_queue : List (net.Addr × Option net.SslSession)
  pub connect_ratelimit : Option host.Limiter
  pub poll : net.Poll
  pub ready_queue : List ℕ
  pub reconnect_ratelimit : Option host.Limiter
  pub request_ratelimit : Option host.Limiter
  pub sessions : host.Slab
  pub tls : Option host.Connector
  pub connect_heatmap : Option host.Heatmap
  pub request_heatmap : Option host.Heatmap
  pub request_waterfall : Option host.Heatmap
  pub pipeline : ℕ
  -- the statics of src/metrics.rs, and the outside
  pub metrics : Metrics
  pub sys : host.Sys

-- A reused TLS session is counted.
reuse : Bool → Metrics → Metrics
reuse true m = record m { session_reuse = m.session_reuse + 1 }
reuse false m = m

module _ {net : Net} {host : Host net} {coder : Coder net} where
  pub set_session : Worker host coder → ℕ → Session net → Worker host coder
  set_session w token s = record w { sessions = host.set w.sessions token s }

  -- The session that `connect` makes from a connected socket.
  pub handshake_config :
      Worker host coder → host.ConnectConfig → net.Tcp → ℕ → Io (Session net) × Metrics
  unfolding reuse
  handshake_config w config stream now = elim (host.connect_tls config stream) [
    | established t ↦
        (ok (tls_with_capacity t 1024 (512 * 1024) now), reuse (host.tls_reused t) w.metrics)
    | blocked mid ↦ (
      ok (handshaking_with_capacity mid 1024 (512 * 1024) now),
      reuse (host.mid_reused mid) w.metrics,
    )
    | failed ↦ (err other, w.metrics)
  ]

  pub resume :
      Worker host coder
      → host.ConnectConfig
      → Option net.SslSession
      → net.Tcp
      → ℕ
      → Io (Session net) × Metrics
  unfolding handshake_config
  resume w config none stream now = handshake_config w config stream now
  resume w config (some ticket) stream now = elim (host.set_session config ticket) [
    | ok config' ↦ handshake_config w config' stream now
    | err e ↦ (err other, w.metrics)
  ]

  pub establish :
      Worker host coder → Option net.SslSession → net.Tcp → ℕ → Io (Session net) × Metrics
  unfolding resume
  establish w ticket stream now = elim w.tls [
    | none ↦ (ok (plain_with_capacity stream 1024 (512 * 1024) now), w.metrics)
    | some connector ↦ elim (host.configure connector) [
      | ok config ↦ resume w config ticket stream now
      | err e ↦ (err other, w.metrics)
    ]
  ]

  -- `vacant_entry`, the token and the time, and `insert`.
  pub admit : Worker host coder → Session net → ℕ × Worker host coder
  unfolding set_token set_timestamp
  admit w s =
      let token = host.vacant w.sessions in
      let (now, sys) = host.now w.sys in
      (
        token,
        record w {
          sessions = host.insert w.sessions (set_timestamp (set_token s token) now);
          sys = sys;
        },
      )

  pub connect : Worker host coder → net.Addr → Option net.SslSession → Io ℕ × Worker host coder
  unfolding establish admit
  connect w addr ticket =
      let (stream, sys) = host.tcp_connect addr w.sys in
      let (now, sys') = host.now sys in
      let w₁ = record w {
        metrics = record w.metrics { connect = w.metrics.connect + 1 };
        sys = sys;
      } in
      elim stream [
        | err e ↦ (err e, w₁)
        | ok socket ↦
            let (session, m) = establish w₁ ticket socket now in
            elim session [
              | ok s ↦
                  let (token, w₂) = admit (record w₁ { metrics = m; sys = sys' }) s in
                  (ok token, w₂)
              | err e ↦ (err e, record w₁ { metrics = m })
            ]
      ]

  -- The address is queued again, with the TLS session, if the socket still knows it.
  pub requeue : Worker host coder → Io net.Addr → Option net.SslSession → Worker host coder
  requeue w (ok addr) ticket = record w { connect_queue = w.connect_queue ++ ((addr, ticket) ∷ []) }
  requeue w (err e) ticket = w

  pub disconnect : Worker host coder → ℕ → Io (Unit {0}) × Worker host coder
  unfolding requeue
  disconnect w token =
      let w₁ = record w { metrics = closed w.metrics } in
      elim (host.get w.sessions token) [
        | none ↦ (err other, w₁)
        | some s ↦
            let (_, poll) = Session.deregister s w.poll in
            (
              ok tt,
              requeue (set_session (record w₁ { poll = poll }) token (Session.close s))
                  (peer_addr s) (ssl_session s),
            )
      ]

  pub is_connecting : Worker host coder → ℕ → Option Bool
  is_connecting w token = elim (host.get w.sessions token) [
    | none ↦ none
    | some s ↦ some (Session.is_connecting s)
  ]

  pub connected : Worker host coder → ℕ → Option (Worker host coder)
  connected w token = elim (host.get w.sessions token) [
    | none ↦ none
    | some s ↦ some (set_session w token (Session.connected s))
  ]

  pub is_handshaking : Worker host coder → ℕ → Option Bool
  is_handshaking w token = elim (host.get w.sessions token) [
    | none ↦ none
    | some s ↦ some (Fields.is_handshaking s)
  ]

  pub handshake : Worker host coder → ℕ → Io (Unit {0}) × Worker host coder
  handshake w token = elim (host.get w.sessions token) [
    | none ↦ (err other, w)
    | some s ↦ let (r, s') = Session.do_handshake s in (r, set_session w token s')
  ]

  pub register : Worker host coder → ℕ → Io (Unit {0}) × Worker host coder
  register w token = elim (host.get w.sessions token) [
    | none ↦ (err other, w)
    | some s ↦ let (r, poll) = Session.register s w.poll in (r, record w { poll = poll })
  ]

  pub reregister : Worker host coder → ℕ → Io (Unit {0}) × Worker host coder
  reregister w token = elim (host.get w.sessions token) [
    | none ↦ (err other, w)
    | some s ↦
        let (r, s', poll) = Session.reregister s w.poll in
        (r, set_session (record w { poll = poll }) token s')
  ]

  abbrev pub timestamp : Worker host coder → ℕ → Option ℕ
  timestamp w token = elim (host.get w.sessions token) [ none ↦ none | some s ↦ some s.timestamp ]
