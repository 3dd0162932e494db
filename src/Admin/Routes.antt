-- ===== src/Admin/Routes.antt =====
-- src/admin.rs: the answer to an HTTP request, and the limiter that it may set. `respond` may fail, and
-- the code goes on.
pub mod Served
use rpc_perf.Base.{ℕ, Option, none, some, List, [], ◌∷◌, ◌++◌, if◌then◌else◌, ◌||◌}
use rpc_perf.Base.Bytes.{Bytes, codes, bytes_eq}
use rpc_perf.Base.Decimal.{parse_usize}
use rpc_perf.Base.Outcome.{Outcome, ret, panic, ◌>>=◌}
use rpc_perf.Base.Text.{split_at}
use rpc_perf.Net.{Net}
use rpc_perf.Host.{Host}
use rpc_perf.Admin.{Console}
use rpc_perf.Admin.Snapshot.{Snapshot}
use rpc_perf.Admin.Text.{human, json, prometheus}

pub data Method : Type 0 where
  get put other : Method

-- The body is `none` when `read_to_string` fails.
pub record HttpRequest : Type 0 where
  pub method : Method
  pub url : Bytes
  pub body : Option Bytes

pub data Response : Type 0 where
  text : Bytes → Response
  empty : ℕ → Response

-- NAME and VERSION, from the build.
pub record Build : Type 0 where
  pub name : Bytes
  pub version : Bytes

-- `parts[0]`.
path_of : List Bytes → Bytes
path_of [] = []
path_of (part ∷ parts) = part

pub serve_get : Build → Snapshot → Bytes → Response
unfolding path_of
serve_get build s whole =
    let url = path_of (split_at b'?' whole) in
    if bytes_eq url (codes "/")
    then text (
        codes "Welcome to "
        ++ (build.name ++ (codes "\nVersion: " ++ (build.version ++ codes "\n"))))
    else if bytes_eq url (codes "/metrics")
    then text (prometheus s)
    else if bytes_eq url (codes "/metrics.json")
        || (bytes_eq url (codes "/vars.json") || bytes_eq url (codes "/admin/metrics.json"))
    then text (json s)
    else if bytes_eq url (codes "/vars")
    then text (human s)
    else text (json s)

module _ {net : Net} {host : Host net} (console : Console host) where
  pub set_parsed : Option ℕ → Option host.Limiter → host.Sys → Response × host.Sys
  set_parsed none limiter sys = (empty 400, sys)
  set_parsed (some rate) none sys = (empty 400, sys)
  set_parsed (some rate) (some limiter) sys = (empty 200, console.set_rate limiter rate sys)

  -- A limiter set to what the body says.
  pub set_limit : Option Bytes → Option host.Limiter → host.Sys → Outcome (Response × host.Sys)
  unfolding set_parsed
  set_limit none limiter sys = panic
  set_limit (some content) limiter sys = ret (set_parsed (parse_usize content) limiter sys)

  pub serve_put :
      Option host.Limiter
      → Option host.Limiter
      → Bytes
      → Option Bytes
      → host.Sys
      → Outcome (Response × host.Sys)
  unfolding set_limit
  serve_put reconnect request url body sys =
      if bytes_eq url (codes "/ratelimit/reconnect")
      then set_limit body reconnect sys
      else if bytes_eq url (codes "/ratelimit/request")
      then set_limit body request sys
      else ret (empty 404, sys)

  pub by_method :
      Build
      → Snapshot
      → Option host.Limiter
      → Option host.Limiter
      → Method
      → Bytes
      → Option Bytes
      → host.Sys
      → Outcome (Response × host.Sys)
  unfolding serve_get serve_put
  by_method build s reconnect request get url body sys = ret (serve_get build s url, sys)
  by_method build s reconnect request put url body sys = serve_put reconnect request url body sys
  by_method build s reconnect request other url body sys = ret (empty 404, sys)

  unfoldable pub serve :
      Build
      → Snapshot
      → Option host.Limiter
      → Option host.Limiter
      → HttpRequest
      → host.Sys
      → Outcome (Response × host.Sys)
  unfolding by_method
  serve build s reconnect request r sys =
      by_method build s reconnect request r.method r.url r.body sys
