-- ===== src/Examples/Auth.antt =====
-- A token of an administrator, one without that role, and a server with keys.
use bulk.Base.{
  String, ◌≡◌, ◌⊎◌, refl, ◌||◌, true, false, [], ◌∷◌, Option, none, some, if◌then◌else◌, str_eq,
}
use bulk.Auth.{Claims, HeaderText, AuthEnv, AuthRequest, next, abort, start_auth, authorize}
use bulk.Auth.Admitted.{IsTrusted, authorize-IsTrusted}

abbrev pub header_text : HeaderText
header_text = record {
  cut_space = λ s.
      if str_eq s "Bearer boss"
      then some ("Bearer", "boss")
      else if str_eq s "Bearer clerk"
      then some ("Bearer", "clerk")
      else none;
  to_lower = λ s. if str_eq s "Bearer" then "bearer" else s;
  contains = str_eq;
  has_prefix = λ s t. str_eq s "/api/v1/admin/batches";
}

abbrev pub auth_env : AuthEnv
auth_env = record {
  allow_legacy = false;
  jwks_url = true;
  keys = true;
  admin_raw = "";
  internal_raw = "";
  expected_iss = "https://id";
  expected_aud = "bulk";
}

abbrev claims_of : String → Claims
claims_of role = record {
  issuer = some "https://id";
  audience = "shop" ∷ "bulk" ∷ [];
  role = some role;
  roles = [];
  scope = none;
}

abbrev pub parse_token : String → Option Claims
parse_token token =
    if str_eq token "boss"
    then some (claims_of "admin")
    else if str_eq token "clerk"
    then some (claims_of "clerk")
    else none

abbrev admin_request : String → AuthRequest
admin_request authorization = record {
  full_path = "/api/v1/admin/batches";
  path = "/api/v1/admin/batches";
  authorization = authorization;
}

admitted : authorize header_text auth_env true parse_token true (admin_request "Bearer boss") ≡ next
unfolding authorize
admitted = refl

refused :
    authorize header_text auth_env true parse_token true (admin_request "Bearer clerk")
    ≡ abort 403 "admin required"
unfolding authorize
refused = refl

started : start_auth auth_env ≡ some true
unfolding start_auth
started = refl

authorize-IsTrusted_example :
    ((str_eq "/api/v1/admin/batches" "/health" || str_eq "/api/v1/admin/batches" "/health") ≡ true)
    ⊎ ((scheme : String) × (token : String) × (header_text.cut_space "Bearer boss"
          ≡ some (scheme, token))
        × (header_text.to_lower scheme ≡ "bearer")
        × IsTrusted header_text auth_env true parse_token true true token)
authorize-IsTrusted_example =
    authorize-IsTrusted header_text auth_env true parse_token true (admin_request "Bearer boss")
      admitted
