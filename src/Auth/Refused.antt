-- ===== src/Auth/Refused.antt =====
-- The answers of the authentication of internal/transport/http/middleware/auth.go to those it refuses.
use bulk.Base.{
  ℕ, String, ◌≡◌, ◌⊎◌, inl, inr, refl, Bool, true, false, ◌||◌, Option, some, arith, if◌then◌else◌,
  str_eq, eq_iff, Bool-cases, Option-cases,
}
use bulk.Auth.{
  Claims, HeaderText, AuthEnv, AuthRequest, abort, start_auth, Check, stop, go_on, ◌>>=◌,
  bearer_token, check_issuer, check_audience, verify, verify_legacy, check_token, admin_only,
  check_request, access_of, authorize,
}

-- Without keys the middleware starts only where raw tokens are allowed.
start_auth-legacy : (e : AuthEnv) → start_auth e ≡ some false → e.allow_legacy ≡ true
unfolding start_auth
start_auth-legacy e h = ground arith

bind-eq-stop :
    {A B : Type 0} (m : Check A) (k : A → Check B) {status : ℕ} {message : String}
    → (m >>= k) ≡ stop status message
    → (m ≡ stop status message) ⊎ ((a : A) × (m ≡ go_on a) × (k a ≡ stop status message))
bind-eq-stop (stop status message) k h = inl (ground arith)
bind-eq-stop (go_on a) k h = inr (a, refl, h)

module _ (text : HeaderText) (e : AuthEnv) (keys_found : Bool) (parse : String → Option Claims)
    {status : ℕ} {message : String} where
  bearer_token_stopped :
      (auth : String)
      → bearer_token text e keys_found parse auth ≡ stop status message
      → status ≡ 401
  unfolding bearer_token
  bearer_token_stopped auth h = elim (Option-cases (text.cut_space auth)) [
    | inl one_part ↦ ground (arith, one_part)
    | inr ((scheme, rest), cut) ↦ ground (arith, cut)
  ]

  verify_stopped :
      (token : String) → verify text e keys_found parse token ≡ stop status message → status ≡ 401
  unfolding verify check_issuer check_audience
  verify_stopped token h = elim (Option-cases (parse token)) [
    | inl refused ↦ ground (arith, refused)
    | inr (c, parsed) ↦ elim (Option-cases c.issuer) [
      | inl missing ↦ ground (arith, parsed, missing)
      | inr (iss, given) ↦ ground (arith, parsed, given)
    ]
  ]

  check_token_stopped :
      (cache : Bool) (token : String)
      → start_auth e ≡ some cache
      → check_token text e keys_found parse cache token ≡ stop status message
      → status ≡ 401
  unfolding check_token verify_legacy
  check_token_stopped true token started h =
      elim (bind-eq-stop (verify text e keys_found parse token) _ h) [
        | inl refused ↦ verify_stopped token refused
        | inr (c, _, refused) ↦ cc
      ]
  check_token_stopped false token started h = ground (arith, start_auth-legacy e started)

  to_admin_stopped :
      (to_admin admin : Bool)
      → (if to_admin then admin_only text e keys_found parse admin else go_on tt)
        ≡ stop status message
      → (status ≡ 403) × (to_admin ≡ true)
  unfolding admin_only
  to_admin_stopped to_admin admin h = ground arith

  check_request_stopped :
      (cache : Bool) (req : AuthRequest)
      → start_auth e ≡ some cache
      → check_request text e keys_found parse cache req ≡ stop status message
      → (status ≡ 401) ⊎ ((status ≡ 403) × (text.has_prefix req.path "/api/v1/admin" ≡ true))
  unfolding check_request
  check_request_stopped cache req started h =
      elim (bind-eq-stop (bearer_token text e keys_found parse req.authorization) _ h) [
        | inl refused ↦ inl (bearer_token_stopped req.authorization refused)
        | inr (token, _, checked) ↦
            elim (bind-eq-stop (check_token text e keys_found parse cache token) _ checked) [
              | inl refused ↦ inl (check_token_stopped cache token started refused)
              | inr (admin, _, refused) ↦ inr (to_admin_stopped _ admin refused)
            ]
      ]

  access_of-abort :
      (c : Check (Unit {0}))
      → access_of text e keys_found parse c ≡ abort status message
      → c ≡ stop status message
  unfolding access_of
  access_of-abort (stop s m) h = cc
  access_of-abort (go_on tt) h = cc

  -- A middleware that has started never answers that authentication is not configured: what it refuses
  -- gets the status 401, or 403 for a path of the administrator.
  pub authorize-refuses :
      (cache : Bool) (req : AuthRequest)
      → start_auth e ≡ some cache
      → authorize text e keys_found parse cache req ≡ abort status message
      → (status ≡ 401) ⊎ ((status ≡ 403) × (text.has_prefix req.path "/api/v1/admin" ≡ true))
  unfolding authorize
  authorize-refuses cache req started h =
      elim (Bool-cases (str_eq req.full_path "/health" || str_eq req.path "/health")) [
        | inl probe ↦ absurd (ground (arith, probe, h))
        | inr other ↦
            check_request_stopped cache req started (access_of-abort _ (ground (arith, other, h)))
      ]

-- A request without an authorization is refused, but for the health probe.
pub authorize_missing :
    (text : HeaderText) (e : AuthEnv) (keys_found : Bool) (parse : String → Option Claims)
    (cache : Bool) (req : AuthRequest)
    → req.authorization ≡ ""
    → (str_eq req.full_path "/health" || str_eq req.path "/health") ≡ false
    → authorize text e keys_found parse cache req ≡ abort 401 "missing authorization"
unfolding authorize check_request bearer_token access_of
authorize_missing text e keys_found parse cache req none_given other =
    ground (arith, none_given, other, eq_iff req.authorization "")
