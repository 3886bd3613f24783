-- ===== src/Router.antt =====
-- internal/transport/http/router.go: the routes, and what a request passes on its way to a handler. The
-- match of a path with a pattern, and the paths that it redirects to one with a slash more or less, are
-- gin's and parameters; tracing and metrics are left out.
pub mod Guarded
use Prim.Native.String.{◌++◌ as append_text}
use bulk.Base.{
  ℕ, String, Bool, true, false, ◌&&◌, not, List, [], ◌∷◌, ◌++◌, Option, none, some, if◌then◌else◌,
  str_eq,
}
use bulk.Domain.{Time}
use bulk.Auth.{Claims, HeaderText, AuthEnv, Access, next, abort, authorize}
use bulk.RateLimit.{Limiter, Counted, Limited, rate_limit}

pub data Method : Type 0 where
  get post put : Method

pub same_method : Method → Method → Bool
same_method Method.get Method.get = true
same_method Method.post Method.post = true
same_method Method.put Method.put = true
same_method _ _ = false

-- The handlers, by their functions' names.
pub data Endpoint : Type 0 where
  health ready metrics : Endpoint
  upload list_batches batch_status confirm cancel start_export get_export : Endpoint
  download_errors download_results download_template : Endpoint
  admin_stats admin_list_batches admin_get_batch admin_update_batch_config : Endpoint
  put_bulk_limits get_bulk_limits admin_restart_batch : Endpoint

-- A route of a group, whose pattern is that of the group and its own.
pub record Route : Type 0 where
  pub method : Method
  pub group : String
  pub rest : String
  pub endpoint : Endpoint

abbrev pub pattern : Route → String
pattern r = append_text r.group r.rest

abbrev route : Method → String → String → Endpoint → Route
route m g rest e = record { method = m; group = g; rest = rest; endpoint = e }

-- `r`, then the groups `api` and `admin`
pub root_routes : List Route
root_routes =
    route Method.get "" "/metrics" Endpoint.metrics
    ∷ route Method.get "" "/health" Endpoint.health
    ∷ route Method.get "" "/ready" Endpoint.ready
    ∷ []

abbrev api : Method → String → Endpoint → Route
api m = route m "/api/v1"

pub api_routes : List Route
api_routes =
    api Method.post "/upload" Endpoint.upload
    ∷ api Method.get "/batches" Endpoint.list_batches
    ∷ api Method.get "/batch/:id" Endpoint.batch_status
    ∷ api Method.get "/batch/:id/status" Endpoint.batch_status
    ∷ api Method.post "/batch/:id/confirm" Endpoint.confirm
    ∷ api Method.post "/batch/:id/cancel" Endpoint.cancel
    ∷ api Method.post "/batch/:id/export" Endpoint.start_export
    ∷ api Method.get "/export/:id" Endpoint.get_export
    ∷ api Method.get "/batch/:id/errors.xlsx" Endpoint.download_errors
    ∷ api Method.get "/batch/:id/results.xlsx" Endpoint.download_results
    ∷ api Method.get "/template/:revision" Endpoint.download_template
    ∷ []

abbrev admin : Method → String → Endpoint → Route
admin m = route m "/api/v1/admin"

pub admin_routes : List Route
admin_routes =
    admin Method.get "/stats" Endpoint.admin_stats
    ∷ admin Method.get "/batches" Endpoint.admin_list_batches
    ∷ admin Method.get "/batches/:id" Endpoint.admin_get_batch
    ∷ admin Method.put "/batches/:id/config" Endpoint.admin_update_batch_config
    ∷ admin Method.put "/config/bulk-limits" Endpoint.put_bulk_limits
    ∷ admin Method.get "/config/bulk-limits" Endpoint.get_bulk_limits
    ∷ admin Method.get "/users/:userId/batches" Endpoint.admin_list_batches
    ∷ admin Method.post "/batches/:id/restart" Endpoint.admin_restart_batch
    ∷ []

unfoldable pub routes : List Route
unfolding root_routes api_routes admin_routes
routes = root_routes ++ api_routes ++ admin_routes

pub record Request : Type 0 where
  pub method : Method
  pub path : String
  pub authorization : String
  pub client_ip : String
  pub now : Time

pub data Served : Type 0 where
  refused : ℕ → String → Served
  limited : Served
  not_found : Served
  redirected : ℕ → Served
  handled : Endpoint → Served

-- The route that gin finds, by the match of a pattern with a path.
unfoldable pub find_route : (String → String → Bool) → Request → List Route → Option Route
unfolding same_method
find_route matches req [] = none
find_route matches req (r ∷ rs) =
    if same_method r.method req.method && matches (pattern r) req.path
    then some r
    else find_route matches req rs

-- `FullPath` of gin
abbrev pub full_path : Option Route → String
full_path none = ""
full_path (some r) = pattern r

abbrev endpoint_of : Option Route → Served
endpoint_of none = not_found
endpoint_of (some r) = handled r.endpoint

-- The surroundings of a request: gin's match of a path and its redirects, the authentication and its
-- answers, and the rate limit.
pub record Gate : Type 0 where
  pub matches : String → String → Bool
  pub slash_redirects : Method → String → Bool
  pub text : HeaderText
  pub auth : AuthEnv
  pub keys_found : Bool
  pub parse : String → Option Claims
  pub cache : Bool
  pub rps : ℕ
  pub count : Counted

abbrev pub access : Gate → Request → Access
access g req = authorize g.text g.auth g.keys_found g.parse g.cache (record {
  full_path = full_path (find_route g.matches req routes);
  path = req.path;
  authorization = req.authorization;
})

-- The middleware in order, and the handler.
unfoldable pub pass : Gate → Request → List (String × Limiter) → Served × List (String × Limiter)
pass g req buckets = elim (access g req) [
  | abort status message ↦ (refused status message, buckets)
  | next ↦
      let l = rate_limit g.rps g.count req.now req.client_ip buckets in
      (if l.passes then endpoint_of (find_route g.matches req routes) else limited, l.limiters)
]

-- A path without a route that has one but for a slash at its end is redirected.
abbrev pub is_redirected : Gate → Request → Bool
is_redirected g req = elim (find_route g.matches req routes) [
  | none ↦ g.slash_redirects req.method req.path
  | some r ↦ false
]

-- 301 for GET, and 307 for the other methods
pub redirect_status : Method → ℕ
redirect_status Method.get = 301
redirect_status _ = 307

-- What the engine of `NewRouter` does with a request; a redirect comes before the middleware.
unfoldable pub serve : Gate → Request → List (String × Limiter) → Served × List (String × Limiter)
unfolding pass redirect_status
serve g req buckets =
    if is_redirected g req
    then (redirected (redirect_status req.method), buckets)
    else pass g req buckets

-- `GET /ready`: a database that is there answers a ping, and the producer is there if there are brokers.
pub ready_status : Option Bool → Bool → Bool → ℕ
ready_status ping brokers producer =
    if elim ping [ none ↦ false | some answers ↦ not answers ]
    then 503
    else if brokers && not producer
    then 503
    else 200
