-- ===== src/Router/Guarded.antt =====
-- Which requests come to a handler.
use bulk.Base.{
  none, String, ◌≡◌, ◌≢◌, refl, Bool, true, false, ◌&&◌, ◌||◌, not, List, [], ◌∷◌, some, arith,
  str_eq, eq_iff, Bool-cases, Option-cases, inl, inr, subst, ◌⊎◌,
}
use Prim.Native.String.{◌++◌ as append_text}
use bulk.Auth.{next, abort}
use bulk.Auth.Admitted.{IsTrusted, authorize-IsTrusted}
use bulk.Auth.Refused.{authorize_missing}
use bulk.RateLimit.{Limiter}
use bulk.Router.{
  Method, Endpoint, Route, Request, Gate, handled, refused, redirected, same_method, pattern,
  routes, find_route, full_path, access, is_redirected, redirect_status, pass, serve,
}

-- The handlers of the administrator.
abbrev pub is_admin_endpoint : Endpoint → Bool
is_admin_endpoint Endpoint.admin_stats = true
is_admin_endpoint Endpoint.admin_list_batches = true
is_admin_endpoint Endpoint.admin_get_batch = true
is_admin_endpoint Endpoint.admin_update_batch_config = true
is_admin_endpoint Endpoint.put_bulk_limits = true
is_admin_endpoint Endpoint.get_bulk_limits = true
is_admin_endpoint Endpoint.admin_restart_batch = true
is_admin_endpoint _ = false

-- Its handlers stand in the group of the administrator only.
placed : Route → Bool
placed r =
    not (is_admin_endpoint r.endpoint)
    || (str_eq r.group "/api/v1/admin" && not (str_eq (pattern r) "/health"))

all_placed : List Route → Bool
all_placed [] = true
all_placed (r ∷ rs) = placed r && all_placed rs

routes-placed : all_placed routes ≡ true
unfolding all_placed placed routes
routes-placed = refl

find_route-placed :
    (matches : String → String → Bool) (req : Request) (rs : List Route) (r : Route)
    → all_placed rs ≡ true
    → find_route matches req rs ≡ some r
    → (placed r ≡ true) × (matches (pattern r) req.path ≡ true)
unfolding all_placed find_route
find_route-placed matches req [] r h f = cc
find_route-placed matches req (x ∷ rs) r h f =
    elim (Bool-cases (same_method x.method req.method && matches (pattern x) req.path)) [
      | inl this ↦ given this (ground (arith, this, f)) (ground (arith, h))
      | inr other ↦
          find_route-placed matches req rs r (ground (arith, h)) (ground (arith, other, f))
    ]
  where
    given :
        same_method x.method req.method && matches (pattern x) req.path ≡ true
        → x ≡ r
        → placed x ≡ true
        → (placed r ≡ true) × (matches (pattern r) req.path ≡ true)
    given this same fine = (rw (← same) fine, rw (← same) (ground (arith, this)))

serve-handled :
    (g : Gate) (req : Request) (buckets : List (String × Limiter)) (ep : Endpoint)
    → (serve g req buckets).0 ≡ handled ep
    → (access g req ≡ next)
      × (r : Route) × (find_route g.matches req routes ≡ some r)
      × (r.endpoint ≡ ep)
unfolding serve pass
serve-handled g req buckets ep h = elim (Option-cases (find_route g.matches req routes)) [
  | inl none_found ↦ absurd (ground (arith, none_found, h))
  | inr (r, found) ↦ (ground (arith, found, h), r, found, ground (arith, found, h))
]

placed_group :
    (r : Route) (ep : Endpoint)
    → placed r ≡ true
    → r.endpoint ≡ ep
    → is_admin_endpoint ep ≡ true
    → (r.group ≡ "/api/v1/admin") × (str_eq (pattern r) "/health" ≡ false)
unfolding placed
placed_group r ep fine same adm =
    let there : is_admin_endpoint r.endpoint ≡ true = rw same adm in
    ground (arith, fine, there, eq_iff r.group "/api/v1/admin")

not_probe :
    (has_prefix : String → String → Bool) (full path : String)
    → str_eq full "/health" ≡ false
    → has_prefix path "/api/v1/admin" ≡ true
    → has_prefix "/health" "/api/v1/admin" ≡ false
    → (str_eq full "/health" || str_eq path "/health") ≢ true
not_probe has_prefix full path named inside apart probe =
    elim (Bool-cases (str_eq path "/health")) [
      | inl same ↦
          let e : path ≡ "/health" = (eq_iff path "/health").0 same in
          let prefixed : has_prefix "/health" "/api/v1/admin" ≡ true = rw (← e) inside in
          ground (arith, prefixed, apart)
      | inr other ↦ ground (arith, named, other, probe)
    ]

-- Where a pattern of the group of the administrator is matched by paths under that group only, as gin
-- does, and the health probe is not under it, each request that comes to a handler of the administrator has a trusted bearer token that
-- names an administrator: a verified token with a claim of that role, or the raw one where these are
-- allowed.
pub serve-IsTrusted :
    (g : Gate) (req : Request) (buckets : List (String × Limiter)) (ep : Endpoint)
    → ((rest path : String)
        → g.matches (append_text "/api/v1/admin" rest) path ≡ true
        → g.text.has_prefix path "/api/v1/admin" ≡ true)
    → g.text.has_prefix "/health" "/api/v1/admin" ≡ false
    → (serve g req buckets).0 ≡ handled ep
    → is_admin_endpoint ep ≡ true
    → (scheme : String) × (token : String) × (g.text.cut_space req.authorization
        ≡ some (scheme, token))
      × (g.text.to_lower scheme ≡ "bearer")
      × IsTrusted g.text g.auth g.keys_found g.parse g.cache true token
serve-IsTrusted g req buckets ep under apart h adm =
    let (let_in, r, found, same) = serve-handled g req buckets ep h in
    let (fine, matched) = find_route-placed g.matches req routes r routes-placed found in
    let (group, named) = placed_group r ep fine same adm in
    let inside : g.text.has_prefix req.path "/api/v1/admin" ≡ true =
      under r.rest req.path
        (subst (λ p. g.matches (append_text p r.rest) req.path ≡ true) group matched) in
    elim (authorize-IsTrusted g.text g.auth g.keys_found g.parse g.cache _ let_in) [
      | inl probe ↦ absurd (
          not_probe g.text.has_prefix (pattern r) req.path named inside apart (
            subst (λ o. (str_eq (full_path o) "/health" || str_eq req.path "/health") ≡ true) found
              probe))
      | inr (scheme, token, cut, lower, trusted) ↦
          (scheme, token, cut, lower, rw (← inside) trusted)
    ]

redirect_status-cases : (m : Method) → (redirect_status m ≡ 301) ⊎ (redirect_status m ≡ 307)
unfolding redirect_status
redirect_status-cases Method.get = inl refl
redirect_status-cases Method.post = inr refl
redirect_status-cases Method.put = inr refl

-- A request without an authorization to another path than that of the health probe, which gin does not
-- match with the pattern of the health probe, is answered with 401, also one to the readiness probe or
-- the metrics, unless it has no route and gin redirects it to a path with a slash more or less: that
-- redirect, with 301 or 307, needs no authorization. Nothing is counted for the request in both cases.
pub serve_no_token :
    (g : Gate) (req : Request) (buckets : List (String × Limiter))
    → req.authorization ≡ ""
    → req.path ≢ "/health"
    → full_path (find_route g.matches req routes) ≢ "/health"
    → ((is_redirected g req ≡ false)
        × (serve g req buckets ≡ (refused 401 "missing authorization", buckets)))
      ⊎ ((find_route g.matches req routes ≡ none)
          × (g.slash_redirects req.method req.path ≡ true)
          × ((serve g req buckets ≡ (redirected 301, buckets))
              ⊎ (serve g req buckets ≡ (redirected 307, buckets))))
unfolding serve pass
serve_no_token g req buckets none_given other unmatched =
    let route_found = find_route g.matches req routes in
    let no_probe : (str_eq (full_path route_found) "/health" || str_eq req.path "/health") ≡ false =
      ground (arith, eq_iff req.path "/health", eq_iff (full_path route_found) "/health") in
    let denied : access g req ≡ abort 401 "missing authorization" =
      authorize_missing g.text g.auth g.keys_found g.parse g.cache _ none_given no_probe in
    elim (Bool-cases (is_redirected g req)) [
      | inr straight ↦ inl (straight, rw (serve, straight, pass, denied) refl)
      | inl away ↦ elim (Option-cases route_found) [
        | inl none_found ↦ inr (none_found, ground (arith, none_found, away), redirected_with away)
        | inr (r, found) ↦ absurd (ground (arith, found, away))
      ]
    ]
  where
    redirected_with :
        is_redirected g req ≡ true
        → (serve g req buckets ≡ (redirected 301, buckets))
          ⊎ (serve g req buckets ≡ (redirected 307, buckets))
    redirected_with away = elim (redirect_status-cases req.method) [
      | inl e ↦ inl (rw (serve, away, e) refl)
      | inr e ↦ inr (rw (serve, away, e) refl)
    ]
