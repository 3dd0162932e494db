-- ===== src/Admin/Run/Answers.antt =====
-- src/admin.rs, `run`: a pass answers each request that waits, and reports nothing.
use rpc_perf.Base.{◌≡◌, refl, Bool, true, false, some, List, [], ◌∷◌}
use rpc_perf.Base.Bytes.{Bytes}
use rpc_perf.Base.Outcome.{ret}
use rpc_perf.Net.{Net}
use rpc_perf.Host.{Host}
use rpc_perf.Admin.{Console, Float}
use rpc_perf.Admin.Routes.{HttpRequest, Build}
use rpc_perf.Admin.Routes.Served.{serve-Served}
use rpc_perf.Admin.Run.{
  Admin, Tick, Output, responded, logged, printed, drawn, serve_all, serve_waiting,
}

-- The bodies of the requests can be read.
unfoldable pub Readable : List HttpRequest → Type 0
Readable [] = Unit {0}
Readable (r ∷ rs) = ((content : Bytes) × (r.body ≡ some content)) × Readable rs

unfoldable pub AllReadable : {net : Net} {host : Host net} → List (Tick host) → Type 0
unfolding Readable
AllReadable [] = Unit {0}
AllReadable (tick ∷ ticks) = Readable tick.requests × AllReadable ticks

-- Nothing but answers.
unfoldable pub Answers : {float : Float} → List (Output float) → Type 0
Answers [] = Unit {0}
Answers (responded r ∷ out) = Answers out
Answers (logged r ∷ out) = ⊥
Answers (printed r ∷ out) = ⊥
Answers (drawn file scale palette ∷ out) = ⊥

module _ {net : Net} {host : Host net} (console : Console host) (float : Float)
    (build : Build) where
  serve_all-Answers :
      (a : Admin host) (rs : List HttpRequest) (sys : host.Sys)
      → Readable rs
      → (out : List (Output float)) × (sys' : host.Sys) × (serve_all console float build a rs sys
          ≡ ret (out, sys'))
        × Answers out
  unfolding serve_all Readable Answers
  serve_all-Answers a [] sys h = ([], sys, refl, tt)
  serve_all-Answers a (r ∷ rs) sys h =
      let ((response, sys₁), runs, served) =
        serve-Served console build a.snapshot a.reconnect_ratelimit a.request_ratelimit r h.0.0 sys
          h.0.1 in
      let (out, sys₂, goes, silent) = serve_all-Answers a rs sys₁ h.1 in
      (responded response ∷ out, sys₂, rw (runs, goes) refl, silent)

  pub serve_waiting-Answers :
      (server : Bool) (a : Admin host) (rs : List HttpRequest) (sys : host.Sys)
      → Readable rs
      → (out : List (Output float)) × (sys' : host.Sys) × (serve_waiting console float build server
            a rs sys
          ≡ ret (out, sys'))
        × Answers out
  unfolding serve_waiting Answers
  serve_waiting-Answers true a rs sys h = serve_all-Answers a rs sys h
  serve_waiting-Answers false a rs sys h = ([], sys, refl, tt)
