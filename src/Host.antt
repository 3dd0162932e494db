-- ===== src/Host.antt =====
-- What src/worker.rs takes from crates: the clock, `Ratelimiter`, `Heatmap`, `Slab`, and the TLS
-- connector. None of it is the program's code, so it is a parameter, as `Net` is.
use rpc_perf.Base.{ℕ, ◌≡◌, Bool, Option, none, some, ◌==◌, if◌then◌else◌}
use rpc_perf.Base.Outcome.{Io}
use rpc_perf.Net.{Net, Handshake}
use rpc_perf.Session.{Session}

-- `Sys` is the state of everything outside: the clock, the network, and the limiters and heatmaps that
-- threads share. A `Limiter` and a `Heatmap` are handles, as an `Arc` is one.
pub record Host (net : Net) : Type 1 where
  pub Sys : Type 0
  pub Limiter : Type 0
  pub Heatmap : Type 0
  pub Connector : Type 0
  pub ConnectConfig : Type 0
  pub Slab : Type 0
  pub now : Sys → ℕ × Sys
  pub tcp_connect : net.Addr → Sys → Io net.Tcp × Sys
  -- `try_wait().is_ok()`
  pub try_wait : Limiter → Sys → Bool × Sys
  -- `heatmap.increment(now, value, 1)`
  pub increment : Heatmap → ℕ → ℕ → Sys → Sys
  pub configure : Connector → Io ConnectConfig
  pub set_session : ConnectConfig → net.SslSession → Io ConnectConfig
  pub connect_tls : ConnectConfig → net.Tcp → Handshake net.Tls net.Mid
  pub tls_reused : net.Tls → Bool
  pub mid_reused : net.Mid → Bool
  -- `get`, the key of `vacant_entry`, its `insert`, and a write through `get_mut`
  pub get : Slab → ℕ → Option (Session net)
  pub vacant : Slab → ℕ
  pub insert : Slab → Session net → Slab
  pub set : Slab → ℕ → Session net → Slab

-- What `Slab` promises: a vacant key names nothing, an insertion fills it and no other, and a write
-- through a key that is occupied changes that entry and no other.
pub record Keeps {net : Net} (host : Host net) : Type 0 where
  pub get-vacant : (t : host.Slab) → host.get t (host.vacant t) ≡ none
  pub get-insert :
      (t : host.Slab) (s : Session net) (k : ℕ)
      → host.get (host.insert t s) k ≡ (if k == host.vacant t then some s else host.get t k)
  pub get-set :
      (t : host.Slab) (i k : ℕ) (s s' : Session net)
      → host.get t i ≡ some s
      → host.get (host.set t i s') k ≡ (if k == i then some s' else host.get t k)
