-- ===== src/Examples/Gateway.antt =====
-- Requests on their way to the handlers.
use bulk.Base.{none, String, ◌≡◌, refl, true, false, ◌⊎◌, ◌&&◌, [], some, str_eq, arith, eq_iff}
use bulk.Auth.{authorize}
use bulk.Auth.Admitted.{IsTrusted}
use bulk.RateLimit.{Counted, rate_limit}
use bulk.Router.{
  Method, Endpoint, Request, Gate, refused, handled, redirected, routes, find_route, full_path,
  is_redirected, pass, serve,
}
use bulk.Router.Guarded.{serve-IsTrusted, serve_no_token}
use bulk.Examples.Auth.{header_text, auth_env, parse_token}

-- The paths of the examples have no parameters.
abbrev gate : Gate
gate = record {
  matches = λ p path. str_eq p path && str_eq path "/api/v1/admin/batches";
  slash_redirects = λ m path. str_eq path "/ready/";
  text = header_text;
  auth = auth_env;
  keys_found = true;
  parse = parse_token;
  cache = true;
  rps = 10;
  count = Counted.no_client;
}

abbrev request_to : String → String → Request
request_to path authorization = record {
  method = Method.get;
  path = path;
  authorization = authorization;
  client_ip = "10.0.0.1";
  now = 5;
}

-- An administrator lists the batches.
serve_test :
    (serve gate (request_to "/api/v1/admin/batches" "Bearer boss") []).0
    ≡ handled Endpoint.admin_list_batches
unfolding serve pass routes find_route authorize rate_limit
serve_test = refl

serve-IsTrusted_example :
    (scheme : String) × (token : String) × (header_text.cut_space "Bearer boss"
      ≡ some (scheme, token))
    × (header_text.to_lower scheme ≡ "bearer")
    × IsTrusted header_text auth_env true parse_token true true token
serve-IsTrusted_example =
    serve-IsTrusted gate (request_to "/api/v1/admin/batches" "Bearer boss") []
      Endpoint.admin_list_batches (λ rest path h. ground (arith, h)) refl serve_test refl

abbrev exact : Gate
exact = record gate { matches = str_eq }

-- The probe of the deployment.
abbrev probe : Request
probe = request_to "/ready" ""

probe_test : full_path (find_route exact.matches probe routes) ≡ "/ready"
unfolding routes find_route
probe_test = refl

serve_no_token_example :
    ((is_redirected exact probe ≡ false)
      × (serve exact probe [] ≡ (refused 401 "missing authorization", [])))
    ⊎ ((find_route str_eq probe routes ≡ none)
        × (false ≡ true)
        × ((serve exact probe [] ≡ (redirected 301, []))
            ⊎ (serve exact probe [] ≡ (redirected 307, []))))
serve_no_token_example =
    serve_no_token exact probe [] refl (ground (arith, eq_iff "/ready" "/health"))
      (ground (arith, probe_test, eq_iff "/ready" "/health"))
