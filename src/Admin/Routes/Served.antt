-- ===== src/Admin/Routes/Served.antt =====
-- src/admin.rs: which requests change a limiter, and to what.
use rpc_perf.Base.{
  ℕ, ◌≡◌, ◌≢◌, refl, Bool, arith, ◌∙◌, ap, inl, inr, ◌⊎◌, true, false, Bool-cases, Option-cases,
  Option, some, if◌then◌else◌,
}
use rpc_perf.Base.Bytes.{Bytes, codes, bytes_eq, bytes_eq→≡}
use rpc_perf.Base.Decimal.{parse_usize}
use rpc_perf.Base.Outcome.{ret}
use rpc_perf.Net.{Net}
use rpc_perf.Host.{Host}
use rpc_perf.Admin.{Console}
use rpc_perf.Admin.Snapshot.{Snapshot}
use rpc_perf.Admin.Routes.{
  Method, get, put, other, HttpRequest, Response, text, empty, Build, serve, serve_get, serve_put,
  set_limit, set_parsed, by_method,
}

abbrev code_of : Response → ℕ
code_of (text s) = 0
code_of (empty n) = n

Method-cases : (m : Method) → (m ≡ get) ⊎ (m ≡ put) ⊎ (m ≡ other)
Method-cases get = inl refl
Method-cases put = inr (inl refl)
Method-cases other = inr (inr refl)

data IsText : Response → Type 0 where
  is_text : (s : Bytes) → IsText (text s)

if-IsText : (b : Bool) (s : Bytes) (r : Response) → IsText r → IsText (if b then text s else r)
if-IsText true s r h = is_text s
if-IsText false s r h = h

serve_get-IsText : (build : Build) (s : Snapshot) (url : Bytes) → IsText (serve_get build s url)
unfolding serve_get
serve_get-IsText build s url = search (if-IsText, is_text)

IsText-code_of : (r : Response) → IsText r → code_of r ≡ 0
IsText-code_of r (is_text s) = refl

serve_get-ne : (build : Build) (s : Snapshot) (url : Bytes) → serve_get build s url ≢ empty 200
serve_get-ne build s url h =
    omega
      (arith, ap code_of h, IsText-code_of (serve_get build s url) (serve_get-IsText build s url))

module _ {net : Net} {host : Host net} (console : Console host) where
  -- A limiter is set to a number, at one of the two paths.
  pub record Sets (reconnect request : Option host.Limiter) (r : HttpRequest) (sys sys' : host.Sys)
      : Type 0 where
    pub limiter : host.Limiter
    pub rate : ℕ
    pub content : Bytes
    pub sent : r.body ≡ some content
    pub parsed : parse_usize content ≡ some rate
    pub path :
        ((r.url ≡ codes "/ratelimit/reconnect") × (reconnect ≡ some limiter))
        ⊎ ((r.url ≡ codes "/ratelimit/request") × (request ≡ some limiter))
    pub set : sys' ≡ console.set_rate limiter rate sys

  -- The world is as it was, or a PUT was answered with 200.
  unfoldable pub Served :
      Option host.Limiter
      → Option host.Limiter
      → HttpRequest
      → host.Sys
      → Response × host.Sys
      → Type 0
  Served reconnect request r sys (response, sys') =
      ((response ≢ empty 200) × (sys' ≡ sys))
      ⊎ ((r.method ≡ put) × (response ≡ empty 200) × Sets reconnect request r sys sys')

  -- What one path does.
  Limits : Option host.Limiter → Bytes → host.Sys → Response × host.Sys → Type 0
  Limits limiter content sys (response, sys') =
      ((response ≢ empty 200) × (sys' ≡ sys))
      ⊎ ((rate : ℕ) × (l : host.Limiter) × (limiter ≡ some l)
          × (parse_usize content ≡ some rate)
          × (response ≡ empty 200)
          × (sys' ≡ console.set_rate l rate sys))

  set_limit-Limits :
      (content : Bytes) (limiter : Option host.Limiter) (sys : host.Sys)
      → (p : Response × host.Sys) × (set_limit console (some content) limiter sys ≡ ret p)
        × Limits limiter content sys p
  unfolding set_limit set_parsed Limits
  set_limit-Limits content limiter sys = elim (Option-cases (parse_usize content)) [
    | inl e ↦ ((empty 400, sys), rw e refl, inl (λ h. bad h, refl))
    | inr (rate, e) ↦ elim (Option-cases limiter) [
      | inl f ↦ ((empty 400, sys), rw (e, f) refl, inl (λ h. bad h, refl))
      | inr (l, f) ↦ (
        (empty 200, console.set_rate l rate sys),
        rw (e, f) refl,
        inr (rate, l, f, e, refl, refl),
      )
    ]
  ]
    where
      bad : empty 400 ≡ empty 200 → ⊥
      bad h = omega (arith, ap code_of h)

  -- The two paths of a PUT.
  put-Served :
      (reconnect request : Option host.Limiter) (r : HttpRequest) (content : Bytes) (sys : host.Sys)
      → r.method ≡ put
      → r.body ≡ some content
      → (p : Response × host.Sys) × (serve_put console reconnect request r.url (some content) sys
          ≡ ret p)
        × Served reconnect request r sys p
  unfolding serve_put Served Limits
  put-Served reconnect request r content sys isput sent =
      elim (Bool-cases (bytes_eq r.url (codes "/ratelimit/reconnect"))) [
        | inl e ↦
            let (p, runs, limits) = set_limit-Limits content reconnect sys in
            let path = bytes_eq→≡ r.url (codes "/ratelimit/reconnect") e in
            (p, rw e runs, lifted p limits (λ l k. inl (path, k)))
        | inr e ↦ elim (Bool-cases (bytes_eq r.url (codes "/ratelimit/request"))) [
          | inl f ↦
              let (p, runs, limits) = set_limit-Limits content request sys in
              let path = bytes_eq→≡ r.url (codes "/ratelimit/request") f in
              (p, rw (e, f) runs, lifted p limits (λ l k. inr (path, k)))
          | inr f ↦ ((empty 404, sys), rw (e, f) refl, inl (λ h. omega (arith, ap code_of h), refl))
        ]
      ]
    where
      lifted :
          {limiter : Option host.Limiter} (p : Response × host.Sys)
          → Limits limiter content sys p
          → ((l : host.Limiter)
              → limiter ≡ some l
              → ((r.url ≡ codes "/ratelimit/reconnect") × (reconnect ≡ some l))
                ⊎ ((r.url ≡ codes "/ratelimit/request") × (request ≡ some l)))
          → Served reconnect request r sys p
      lifted p (inl same) path = inl same
      lifted p (inr (rate, l, k, parsed, ok, set)) path = inr (
        isput,
        ok,
        record {
          limiter = l;
          rate = rate;
          content = content;
          sent = sent;
          parsed = parsed;
          path = path l k;
          set = set;
        },
      )

  -- When the body of a request can be read, the admin thread answers it without a panic. Either
  -- the answer is not an empty 200 and nothing outside changes; or it is, and the request was a
  -- PUT to /ratelimit/reconnect or /ratelimit/request whose body is a number, the limiter of that
  -- path was there, and it is set to that number.
  pub serve-Served :
      (build : Build) (s : Snapshot) (reconnect request : Option host.Limiter) (r : HttpRequest)
      (content : Bytes) (sys : host.Sys)
      → r.body ≡ some content
      → (p : Response × host.Sys) × (serve console build s reconnect request r sys ≡ ret p)
        × Served reconnect request r sys p
  unfolding serve by_method Served
  serve-Served build s reconnect request r content sys sent =
      let at = λ (m : Method). by_method console build s reconnect request m r.url r.body sys in
      elim (Method-cases r.method) [
        | inl e ↦ ((serve_get build s r.url, sys), ap at e, inl (serve_get-ne build s r.url, refl))
        | inr (inl e) ↦
            let (p, runs, served) = put-Served reconnect request r content sys e sent in
            (
              p,
              ap at e ∙ ap (λ b. serve_put console reconnect request r.url b sys) sent ∙ runs,
              served,
            )
        | inr (inr e) ↦ ((empty 404, sys), ap at e, inl (λ h. omega (arith, ap code_of h), refl))
      ]
