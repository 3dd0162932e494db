-- ===== src/Tests/Workers.antt =====
-- src/worker.rs at a concrete worker, which speaks the ping protocol.
use rpc_perf.Base.{
  ℕ, zero, suc, ◌<◌, ◌≡◌, ◌⊎◌, refl, subst, some, none, [], ◌∷◌, arith, true, false,
}
use rpc_perf.Base.Bytes.{codes}
use rpc_perf.Base.Outcome.{Io, panic, err, other}
use rpc_perf.Base.Progress.{returns, panics, Ends}
use rpc_perf.Metrics.{zeroed, closed}
use rpc_perf.Session.{Session}
use rpc_perf.Session.Calls.{IsProper, refit-IsReady}
use rpc_perf.Coder.{Obeys}
use rpc_perf.Codec.Ping.Worker.{coder, coder-Obeys}
use rpc_perf.Worker.{Worker, connect, disconnect}
use rpc_perf.Worker.Sound.{Names, AllName}
use rpc_perf.Worker.Sessions.{Good, Advances, Closed, disconnect-Closed}
use rpc_perf.Worker.Connect.{Connected, connect-Connected}
use rpc_perf.Worker.Traffic.{do_read, send_request, encode_requests}
use rpc_perf.Worker.Traffic.Reads.{Read, Interrupted, do_read-Read}
use rpc_perf.Worker.Traffic.Requests.{Sent, send_request-Sent}
use rpc_perf.Worker.Turn.{Event, connect_next, serve_next, on_event, on_events, turn}
use rpc_perf.Worker.Turn.Serve.{Served, EncoderPanics, serve_next-Served}
use rpc_perf.Worker.Turn.Events.{AllNamed, on_event-Ends}
use rpc_perf.Worker.Turn.Rounds.{begun, round, Reach-Kept}
use rpc_perf.Tests.World.{network, network-Fits, holding, holding-IsReady}
use rpc_perf.Tests.Machine.{machine, machine-Keeps}

coder_example : Obeys (coder network)
coder_example = coder-Obeys network

abbrev session : Session network
session = record (holding [] (codes "pong\r\n")) { outstanding = 1 }

-- One session, which is ready; and an address to connect to.
abbrev worker : Worker machine (coder network)
worker = record {
  codec = tt;
  connect_queue = (7, none) ∷ [];
  connect_ratelimit = none;
  poll = tt;
  ready_queue = 0 ∷ [];
  reconnect_ratelimit = none;
  request_ratelimit = some 0;
  sessions = session ∷ [];
  tls = none;
  connect_heatmap = some 0;
  request_heatmap = some 0;
  request_waterfall = none;
  pipeline = 2;
  metrics = zeroed;
  sys = 0;
}

worker-Good : Good worker
unfolding Names AllName
worker-Good = record { proper = proper; named = ((session, refl), tt) }
  where
    some_is : {A : Type 0} {a b : A} → some a ≡ some b → a ≡ b
    some_is e = cc

    proper : (k : ℕ) (s : Session network) → machine.get worker.sessions k ≡ some s → IsProper k s
    proper zero s e = subst (IsProper 0) (some_is e) (record {
      ready = refit-IsReady _ _ _ _ _ _ (holding-IsReady [] (codes "pong\r\n") (omega arith));
      same = refl;
    })
    proper (suc k) s e = cc

connect_example : Connected worker (connect worker 7 none)
connect_example = connect-Connected machine-Keeps worker 7 none worker-Good

disconnect_example :
    ((machine.get worker.sessions 0 ≡ none)
      × (disconnect worker 0 ≡ (err other, record worker { metrics = closed worker.metrics })))
    ⊎ ((s : Session network) × (machine.get worker.sessions 0 ≡ some s)
        × Closed worker 0 s (disconnect worker 0))
disconnect_example = disconnect-Closed machine-Keeps worker 0

do_read_example :
    ((out : Io (Unit {0}) × Worker machine (coder network)) × (do_read 3 worker 0 ≡ returns out)
      × Read worker 0 session out)
    ⊎ Interrupted 3 worker 0
do_read_example =
    do_read-Read machine-Keeps (coder-Obeys network) network-Fits 3 worker 0 session worker-Good
      refl

send_request_example :
    ((out : Io (Unit {0}) × Worker machine (coder network)) × (send_request worker 0 2
        ≡ returns out)
      × Sent worker 0 2 out)
    ⊎ (encode_requests (coder network) 2 tt session zeroed ≡ panic)
send_request_example =
    send_request-Sent machine-Keeps (coder-Obeys network) network-Fits worker 0 2 session
      worker-Good refl

serve_next_example :
    ((served : ℕ × Worker machine (coder network)) × (serve_next 1 worker ≡ returns served)
      × Served worker served)
    ⊎ ((serve_next 1 worker ≡ panics) × EncoderPanics worker)
serve_next_example =
    serve_next-Served machine-Keeps (coder-Obeys network) network-Fits worker 1 worker-Good
      (omega arith)

abbrev event : Event
event = record { token = 0; is_error = false; is_readable = true; is_writable = true }

on_event_example : Ends (Advances worker) (on_event 3 worker event)
unfolding Names
on_event_example =
    on_event-Ends machine-Keeps (coder-Obeys network) network-Fits 3 worker event worker-Good
      (session, refl)

-- A worker with nothing to do, and a round of it.
abbrev resting : Worker machine (coder network)
resting = record worker { connect_queue = []; ready_queue = [] }

resting-Good : Good resting
unfolding AllName
resting-Good = record { proper = worker-Good.proper; named = tt }

resting_round : turn 3 1 resting [] ≡ returns (1, resting)
unfolding turn connect_next serve_next on_events
resting_round = refl

resting-named : AllNamed {coder = coder network} resting []
unfolding AllNamed
resting-named = tt

rounds_example : (1 < resting.pipeline) × Advances resting resting
rounds_example =
    Reach-Kept machine-Keeps (coder-Obeys network) network-Fits 3 1 resting resting-Good
      (omega arith) 1 resting (round 1 1 resting resting [] begun resting-named resting_round)
