-- ===== src/Builder/Shared.antt =====
-- src/lib.rs: what the admin thread and the workers share, and how far a request to the one reaches.
use rpc_perf.Base.{
  ℕ, zero, suc, ◌≡◌, ◌≢◌, refl, sym, ap, ◌∙◌, subst, inl, inr, ◌⊎◌, arith, Option, none, some, List,
  [], ◌∷◌, ◌++◌, length, length-append, All,
}
use rpc_perf.Base.Bytes.{Bytes, codes}
use rpc_perf.Base.Decimal.{parse_usize}
use rpc_perf.Base.Outcome.{ret, Outcome-cases, WhenRet}
use rpc_perf.Net.{Net}
use rpc_perf.Host.{Host}
use rpc_perf.Coder.{Coder}
use rpc_perf.Settings.{RatelimitModel, ratelimit_model, windows}
use rpc_perf.Worker.{Worker}
use rpc_perf.Admin.{Console}
use rpc_perf.Admin.Snapshot.{Metric, Snapshot}
use rpc_perf.Admin.Routes.{put, HttpRequest, Response, empty, Build, serve}
use rpc_perf.Admin.Routes.Served.{Served, serve-Served}
use rpc_perf.Admin.Run.{Admin}
use rpc_perf.Admin.Run as Run
use rpc_perf.Builder.{
  Maker, Supply, Builder, Config, sections, is_some, ratelimit, waterfall_heatmap, equip,
  start_workers, assemble, new,
}

All-map {ℓ} :
    {A : Type ℓ} (P Q : A → Type 0) (xs : List A) → ((x : A) → P x → Q x) → All P xs → All Q xs
All-map P Q [] f h = tt
All-map P Q (x ∷ xs) f h = (f x h.0, All-map P Q xs f h.1)

All-snoc {ℓ} :
    {A : Type ℓ} (P : A → Type 0) (xs : List A) (y : A) → All P xs → P y → All P (xs ++ (y ∷ []))
All-snoc P [] y h k = (k, tt)
All-snoc P (x ∷ xs) y h k = (h.0, All-snoc P xs y h.1 k)

content_of : (r : HttpRequest) (a b : Bytes) → r.body ≡ some a → r.body ≡ some b → b ≡ a
content_of r a b h k = cc

some-injective {ℓ} : {A : Type ℓ} {a b : A} → ◌≡◌ {A = Option A} (some a) (some b) → a ≡ b
some-injective e = cc

module _ {net : Net} {host : Host net} where
  -- A call of `Ratelimiter::new` has made the limiter, for a rate that the configuration gives.
  pub record MadeFor (maker : Maker host) (threads : ℕ) (model : Option RatelimitModel)
      (rate : Option ℕ) (limiter : host.Limiter) : Type 0 where
    pub first : ℕ
    pub before : host.Sys
    pub given : rate ≡ some first
    pub made : (maker.limiter threads first (ratelimit_model model) before).0 ≡ limiter

  ratelimit-MadeFor :
      (maker : Maker host) (threads : ℕ) (model : Option RatelimitModel) (rate : Option ℕ)
      (sys : host.Sys) (l : host.Limiter)
      → (ratelimit maker threads model rate sys).0 ≡ some l
      → MadeFor maker threads model rate l
  unfolding ratelimit
  ratelimit-MadeFor maker threads model none sys l e = cc
  ratelimit-MadeFor maker threads model (some r) sys l e = record {
    first = r;
    before = sys;
    given = refl;
    made = some-injective e;
  }

module _ {net : Net} {host : Host net} {coder : Coder net} where
  -- A worker has the limiters and the heatmaps of the admin thread, and the limiter for connects.
  pub record Shares (connect : Option host.Limiter) (a : Admin host) (w : Worker host coder)
      : Type 0 where
    pub first : w.connect_ratelimit ≡ connect
    pub reconnect : w.reconnect_ratelimit ≡ a.reconnect_ratelimit
    pub request : w.request_ratelimit ≡ a.request_ratelimit
    pub connects : w.connect_heatmap ≡ a.connect_heatmap
    pub requests : w.request_heatmap ≡ a.request_heatmap
    pub waterfall : w.request_waterfall ≡ a.request_waterfall

  start_workers-All :
      (P : Worker host coder → Type 0) (n : ℕ) (make : Supply host coder → Worker host coder)
      (supply : ℕ → Supply host coder)
      → ((s : Supply host coder) → P (make s))
      → All P (start_workers n make supply) × (length (start_workers n make supply) ≡ n)
  unfolding start_workers
  start_workers-All P zero make supply each = (tt, refl)
  start_workers-All P (suc n) make supply each =
      let (all, count) = start_workers-All P n make supply each in
      (
        All-snoc P (start_workers n make supply) (make (supply n)) all (each (supply n)),
        omega
            (arith, count, length-append {0} (start_workers n make supply) (make (supply n) ∷ [])),
      )

  -- One worker for each thread, which shares what the admin thread has, and limiters that are made
  -- for the rates of the configuration.
  pub record Equipped (maker : Maker host) (config : Config host) (b : Builder host coder)
      : Type 0 where
    pub connect : Option host.Limiter
    pub shares : All (Shares connect b.admin) b.workers
    pub count : length b.workers ≡ config.general.threads
    pub reconnect :
        (l : host.Limiter)
        → b.admin.reconnect_ratelimit ≡ some l
        → MadeFor maker config.general.threads config.connection.model config.connection.reconnect l
    pub request :
        (l : host.Limiter)
        → b.admin.request_ratelimit ≡ some l
        → MadeFor maker config.general.threads config.request.model config.request.ratelimit l

  assemble-Shares :
      (config : Config host) (supply : ℕ → Supply host coder) (admin : Admin host)
      (connect reconnect request : Option host.Limiter) (c r : host.Heatmap)
      (w : Option host.Heatmap)
      → let b = assemble config supply admin connect reconnect request c r w in
        All (Shares connect b.admin) b.workers
        × (length b.workers ≡ config.general.threads)
        × (b.admin.reconnect_ratelimit ≡ reconnect)
        × (b.admin.request_ratelimit ≡ request)
  unfolding assemble equip
  assemble-Shares config supply admin connect reconnect request c r w =
      let (shares, count) =
        start_workers-All (Shares connect _) config.general.threads _ supply (λ s. record {
          first = refl;
          reconnect = refl;
          request = refl;
          connects = refl;
          requests = refl;
          waterfall = refl;
        }) in
      (shares, count, refl, refl)

  assemble-Equipped :
      (maker : Maker host) (config : Config host) (supply : ℕ → Supply host coder)
      (admin : Admin host) (connect : Option host.Limiter) (s₁ s₂ : host.Sys) (c r : host.Heatmap)
      (w : Option host.Heatmap)
      → Equipped maker config (
          assemble config supply admin connect
            (ratelimit maker config.general.threads config.connection.model
              config.connection.reconnect s₁).0
            (ratelimit maker config.general.threads config.request.model config.request.ratelimit
              s₂).0
            c
            r
            w)
  assemble-Equipped maker config supply admin connect s₁ s₂ c r w =
      let (shares, count, reconnect, request) =
        assemble-Shares config supply admin connect _ _ c r w in
      record {
        connect = connect;
        shares = shares;
        count = count;
        reconnect =
            λ l e. ratelimit-MadeFor maker _ _ config.connection.reconnect s₁ l (sym reconnect ∙ e);
        request =
            λ l e. ratelimit-MadeFor maker _ _ config.request.ratelimit s₂ l (sym request ∙ e);
      }

  new-WhenRet :
      (console : Console host) (maker : Maker host) (config : Config host)
      (supply : ℕ → Supply host coder) (metrics : List Metric) (taken window : ℕ) (sys : host.Sys)
      → WhenRet (Equipped maker config) (new console maker config supply metrics taken window sys)
  unfolding new
  new-WhenRet console maker config supply metrics taken window sys =
      let threads = config.general.threads in
      let secs = config.general.interval_secs in
      let model = config.connection.model in
      let connect = ratelimit maker threads model config.connection.ratelimit sys in
      let reconnect = ratelimit maker threads model config.connection.reconnect connect.1 in
      let request =
        ratelimit maker threads config.request.model config.request.ratelimit reconnect.1 in
      elim (Outcome-cases (maker.heatmap secs 1000 request.1)) [
        | inr e ↦ rw (e, new) tt
        | inl ((c, sys₄), e) ↦ elim (Outcome-cases (maker.heatmap secs 1000 sys₄)) [
          | inr f ↦ rw (e, f, new) tt
          | inl ((r, sys₅), f) ↦
              elim (Outcome-cases (
                waterfall_heatmap maker config.waterfall.file (windows config.general) secs
                  config.waterfall.resolution sys₅)) [
                    | inr g ↦ rw (e, f, g, new) tt
                    | inl ((w, sys₆), g) ↦
                        let admin =
                          Run.new console (some (sections config)) (is_some config.general.admin)
                            metrics taken window sys₆ in
                        rw (e, f, g, new)
                          (assemble-Equipped maker config supply admin connect.0 connect.1
                            reconnect.1 c r w)
                  ]
        ]
      ]

  new-Equipped :
      (console : Console host) (maker : Maker host) (config : Config host)
      (supply : ℕ → Supply host coder) (metrics : List Metric) (taken window : ℕ) (sys : host.Sys)
      (b : Builder host coder)
      → new console maker config supply metrics taken window sys ≡ ret b
      → Equipped maker config b
  new-Equipped console maker config supply metrics taken window sys b e =
      subst (WhenRet (Equipped maker config)) e
        (new-WhenRet console maker config supply metrics taken window sys)

  -- The limiter of one path has a new rate. It is the limiter that each of the workers has for what
  -- the path names, and was made for the rate that the configuration has for it.
  pub record Reaches (console : Console host) (maker : Maker host) (config : Config host)
      (b : Builder host coder) (r : HttpRequest) (content : Bytes) (sys sys' : host.Sys)
      : Type 0 where
    pub limiter : host.Limiter
    pub rate : ℕ
    pub parsed : parse_usize content ≡ some rate
    pub set : sys' ≡ console.set_rate limiter rate sys
    pub path :
        ((r.url ≡ codes "/ratelimit/reconnect")
          × All (λ (w : Worker host coder). w.reconnect_ratelimit ≡ some limiter) b.workers
          × MadeFor maker config.general.threads config.connection.model config.connection.reconnect
              limiter)
        ⊎ ((r.url ≡ codes "/ratelimit/request")
            × All (λ (w : Worker host coder). w.request_ratelimit ≡ some limiter) b.workers
            × MadeFor maker config.general.threads config.request.model config.request.ratelimit
                limiter)

  -- When Builder::new returns and the body of a request can be read: there is a worker for each
  -- thread, and all of them have one limiter for connects and, of the admin thread, its two limiters
  -- and its three heatmaps. The admin thread answers the request. Either the answer is not an empty
  -- 200 and nothing outside changes, or it is, the request was a PUT, the body is a number, one
  -- limiter is set to that rate and no more happens. This limiter is the handle that every worker has
  -- as its reconnect limiter when the path is /ratelimit/reconnect, and as its request limiter when it
  -- is /ratelimit/request, and the handle is what one call has made, for the first rate and the model
  -- that the configuration has for reconnects, or for requests.
  pub new-Reaches :
      (console : Console host) (maker : Maker host) (config : Config host)
      (supply : ℕ → Supply host coder) (metrics : List Metric) (taken window : ℕ)
      (start sys : host.Sys) (b : Builder host coder) (build : Build) (s : Snapshot)
      (r : HttpRequest) (content : Bytes)
      → new console maker config supply metrics taken window start ≡ ret b
      → r.body ≡ some content
      → (length b.workers ≡ config.general.threads)
        × (connect : Option host.Limiter) × All (Shares connect b.admin) b.workers
        × (response : Response) × (sys' : host.Sys) × (serve console build s
              b.admin.reconnect_ratelimit b.admin.request_ratelimit r sys
            ≡ ret (response, sys'))
        × (((response ≢ empty 200) × (sys' ≡ sys))
            ⊎ ((r.method ≡ put)
                × (response ≡ empty 200)
                × Reaches console maker config b r content sys sys'))
  unfolding Served
  new-Reaches console maker config supply metrics taken window start sys b build s r content made
        sent =
      let equipped = new-Equipped console maker config supply metrics taken window start b made in
      let ((response, sys'), runs, served) =
        serve-Served console build s b.admin.reconnect_ratelimit b.admin.request_ratelimit r content
          sys sent in
      (
        equipped.count,
        equipped.connect,
        equipped.shares,
        response,
        sys',
        runs,
        elim served [
          | inl same ↦ inl same
          | inr (isput, ok, sets) ↦ inr (
            isput,
            ok,
            record {
              limiter = sets.limiter;
              rate = sets.rate;
              parsed =
                  ap parse_usize (content_of r sets.content content sets.sent sent) ∙ sets.parsed;
              set = sets.set;
              path = elim sets.path [
                | inl (path, e) ↦ inl (
                  path,
                  All-map _ _ b.workers (λ w h. h.reconnect ∙ e) equipped.shares,
                  equipped.reconnect _ e,
                )
                | inr (path, e) ↦ inr (
                  path,
                  All-map _ _ b.workers (λ w h. h.request ∙ e) equipped.shares,
                  equipped.request _ e,
                )
              ];
            },
          )
        ],
      )
