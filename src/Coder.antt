-- ===== src/Coder.antt =====
-- The trait `Codec` of src/codec/mod.rs as its clients see it: `Box<dyn Codec>` with its state.
use rpc_perf.Base.{◌≡◌}
use rpc_perf.Base.Outcome.{Outcome, ret}
use rpc_perf.Metrics.{Metrics}
use rpc_perf.Net.{Net}
use rpc_perf.Session.{Session}
use rpc_perf.Session.Ready.{IsReady}
use rpc_perf.Reply.{Reply, Decoded}

pub record Coder (net : Net) : Type 1 where
  pub State : Type 0
  pub encode : State → Session net → Metrics → Outcome ((State × Metrics) × Session net)
  pub decode : Session net → Metrics → Decoded net

-- What a call of `decode` leaves of a session, whatever it answers.
pub record Decodes {net : Net} (s : Session net) (m : Metrics) (d : Decoded net) : Type 0 where
  pub reply : Reply
  pub after : Session net
  pub counters : Metrics
  pub returns : d ≡ ret (reply, after, counters)
  pub ready : IsReady after
  pub outstanding : after.outstanding ≡ s.outstanding
  pub token : after.token ≡ s.token
  pub response : counters.response ≡ m.response

-- What a call of `encode` that returns leaves of a session and of the counters.
pub record Encoded {net : Net} (s : Session net) (m : Metrics) (s' : Session net) (m' : Metrics)
    : Type 0 where
  pub ready : IsReady s'
  pub token : s'.token ≡ s.token
  pub request : m'.request ≡ m.request

-- The part of a codec's contract that a worker's own correctness rests on: `decode` does not panic on
-- a ready session and leaves it ready, with its outstanding count and its token, and so does an
-- `encode` that returns.
pub record Obeys {net : Net} (coder : Coder net) : Type 0 where
  pub decodes : (s : Session net) (m : Metrics) → IsReady s → Decodes s m (coder.decode s m)
  pub encodes :
      (st st' : coder.State) (s s' : Session net) (m m' : Metrics)
      → IsReady s
      → coder.encode st s m ≡ ret ((st', m'), s')
      → Encoded s m s' m'
