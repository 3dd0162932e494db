-- ===== src/Session/Calls.antt =====
-- src/session/mod.rs: the calls that leave the buffers of a session alone.
use rpc_perf.Base.{arith, ◌*◌, ℕ, ◌≡◌, refl, inl, inr, Bool, Bool-cases, if_both}
use rpc_perf.Base.Outcome.{Io}
use rpc_perf.Net.{Net, Interest}
use rpc_perf.Stream.{Stream}
use rpc_perf.Session.{
  Session, connected, reregister, readiness, same_interest, do_handshake, close, new,
  plain_with_capacity, tls_with_capacity, handshaking_with_capacity,
}
use rpc_perf.Session.Ready.{IsReady, new-IsReady}

-- A session differs from a ready one in fields other than its buffers.
pub refit-IsReady :
    {net : Net} {s : Session net} (token : ℕ) (stream : Stream net) (is_connected : Bool)
    (interest : Interest) (timestamp outstanding : ℕ)
    → IsReady s
    → IsReady (record s {
      token = token;
      stream = stream;
      is_connected = is_connected;
      interest = interest;
      timestamp = timestamp;
      outstanding = outstanding;
    })
refit-IsReady token stream is_connected interest timestamp outstanding r = record {
  reads = r.reads;
  writes = r.writes;
  size = r.size;
  min_power = r.min_power;
  max_power = r.max_power;
  max_small = r.max_small;
  at_least = r.at_least;
  at_most = r.at_most;
}

-- A session under its token, ready for its next call.
pub record IsProper {net : Net} (token : ℕ) (s : Session net) : Type 0 where
  pub ready : IsReady s
  pub same : s.token ≡ token

module _ {net : Net} where
  pub close-IsProper : (token : ℕ) (s : Session net) → IsProper token s → IsProper token (close s)
  unfolding close
  close-IsProper token s p = record { ready = refit-IsReady _ _ _ _ _ _ p.ready; same = p.same }

  pub connected-IsProper :
      (token : ℕ) (s : Session net) → IsProper token s → IsProper token (connected s)
  unfolding connected
  connected-IsProper token s p =
      if_both (IsProper token) s.is_connected _ _ p
        (record { ready = refit-IsReady _ _ _ _ _ _ p.ready; same = p.same })

  pub do_handshake-IsProper :
      (token : ℕ) (s : Session net) → IsProper token s → IsProper token (do_handshake s).1
  unfolding do_handshake
  do_handshake-IsProper token s p = record {
    ready = refit-IsReady _ _ _ _ _ _ p.ready;
    same = p.same;
  }

  pub reregister-IsProper :
      (token : ℕ) (s : Session net) (poll : net.Poll)
      → IsProper token s
      → IsProper token (reregister s poll).1
  unfolding reregister
  reregister-IsProper token s poll p = elim (Bool-cases (same_interest (readiness s) s.interest)) [
    | inl e ↦ rw (e, reregister) p
    | inr e ↦
        rw (e, reregister) (record { ready = refit-IsReady _ _ _ _ _ _ p.ready; same = p.same })
  ]

  -- The sessions that a worker makes, with the capacities that it gives.
  worker-IsReady : (stream : Stream net) (now : ℕ) → IsReady (new stream 1024 (512 * 1024) now)
  worker-IsReady stream now =
      new-IsReady stream 1024 (512 * 1024) now (record { exponent = 10; power = refl })
        (record { exponent = 19; power = refl }) (omega arith) (omega arith)

  pub plain_with_capacity-IsReady :
      (t : net.Tcp) (now : ℕ) → IsReady {net = net} (plain_with_capacity t 1024 (512 * 1024) now)
  unfolding plain_with_capacity
  plain_with_capacity-IsReady t now = worker-IsReady _ now

  pub tls_with_capacity-IsReady :
      (t : net.Tls) (now : ℕ) → IsReady {net = net} (tls_with_capacity t 1024 (512 * 1024) now)
  unfolding tls_with_capacity
  tls_with_capacity-IsReady t now = worker-IsReady _ now

  pub handshaking_with_capacity-IsReady :
      (t : net.Mid) (now : ℕ)
      → IsReady {net = net} (handshaking_with_capacity t 1024 (512 * 1024) now)
  unfolding handshaking_with_capacity
  handshaking_with_capacity-IsReady t now = worker-IsReady _ now

  pub reregister-timestamp :
      (s : Session net) (poll : net.Poll) → (reregister s poll).1.timestamp ≡ s.timestamp
  unfolding reregister
  reregister-timestamp s poll =
      if_both (λ (r : Io (Unit {0}) × Session net × net.Poll). r.1.timestamp ≡ s.timestamp)
        (same_interest (readiness s) s.interest) _ _ refl refl

  pub reregister-outstanding :
      (s : Session net) (poll : net.Poll) → (reregister s poll).1.outstanding ≡ s.outstanding
  unfolding reregister
  reregister-outstanding s poll =
      if_both (λ (r : Io (Unit {0}) × Session net × net.Poll). r.1.outstanding ≡ s.outstanding)
        (same_interest (readiness s) s.interest) _ _ refl refl
