-- ===== src/Auth.antt =====
-- internal/transport/http/middleware/auth.go: which requests are let in. The key set, the parsing and
-- validation of a token by the jwx library, and Go's `strings` are parameters.
pub mod Admitted
pub mod Refused
use bulk.Base.{
  ℕ, String, Bool, true, false, ◌&&◌, ◌||◌, not, List, [], ◌∷◌, Option, none, some, if◌then◌else◌,
  str_eq,
}

-- The claims of a token that the code reads; `roles` is a list of texts and, as `none`, other values.
pub record Claims : Type 0 where
  pub issuer : Option String
  pub audience : List String
  pub role : Option String
  pub roles : List (Option String)
  pub scope : Option String

-- `strings.SplitN(auth, " ", 2)` in two parts, if there are two, `ToLower`, `Contains` and `HasPrefix`
pub record HeaderText : Type 0 where
  pub cut_space : String → Option (String × String)
  pub to_lower : String → String
  pub contains : String → String → Bool
  pub has_prefix : String → String → Bool

-- The environment of the process at its start. `keys` is the outcome of making the cache and of the
-- first loading of the keys, if there is a URL.
pub record AuthEnv : Type 0 where
  pub allow_legacy : Bool
  pub jwks_url : Bool
  pub keys : Bool
  pub admin_raw : String
  pub internal_raw : String
  pub expected_iss : String
  pub expected_aud : String

-- Whether the cache of keys is there; `none` is a panic.
unfoldable pub start_auth : AuthEnv → Option Bool
start_auth e =
    if e.jwks_url
    then (if e.keys then some true else if e.allow_legacy then some false else none)
    else if e.allow_legacy
    then some false
    else none

pub record AuthRequest : Type 0 where
  pub full_path : String
  pub path : String
  pub authorization : String

-- The request goes on, or is answered with a status and an error.
pub data Access : Type 0 where
  next : Access
  abort : ℕ → String → Access

-- A step of the handler: it answers, or goes on with a value.
pub data Check (A : Type 0) : Type 0 where
  stop : ℕ → String → Check A
  go_on : A → Check A

infixl 5 ◌>>=◌ ◌>>◌
abbrev pub ◌>>=◌ : {A B : Type 0} → Check A → (A → Check B) → Check B
stop status message >>= k = stop status message
go_on a >>= k = k a

abbrev ◌>>◌ : {A B : Type 0} → Check A → Check B → Check B
m >> k = m >>= λ _. k

pub has_text : String → List String → Bool
has_text s [] = false
has_text s (x ∷ xs) = if str_eq x s then true else has_text s xs

pub has_admin : List (Option String) → Bool
has_admin [] = false
has_admin (some s ∷ rs) = if str_eq s "admin" then true else has_admin rs
has_admin (none ∷ rs) = has_admin rs

pub contains_admin : HeaderText → Option String → Bool
contains_admin text none = false
contains_admin text (some s) = text.contains s "admin"

pub is_admin : HeaderText → Claims → Bool
unfolding has_admin contains_admin
is_admin text c = contains_admin text c.role || (has_admin c.roles || contains_admin text c.scope)

-- The rest of the parameters: what `Lookup` of the cache and `jwt.Parse` answer in this request.
module _ (text : HeaderText) (e : AuthEnv) (keys_found : Bool)
    (parse : String → Option Claims) where
  pub bearer_token : String → Check String
  bearer_token auth =
      if str_eq auth "" then stop 401 "missing authorization" else elim (text.cut_space auth) [
        | none ↦ stop 401 "invalid authorization header"
        | some (scheme, token) ↦
            if str_eq (text.to_lower scheme) "bearer"
            then go_on token
            else stop 401 "invalid authorization header"
      ]

  pub check_issuer : Claims → Check (Unit {0})
  check_issuer c = if str_eq e.expected_iss "" then go_on tt else elim c.issuer [
    | none ↦ stop 401 "invalid token issuer"
    | some iss ↦ if str_eq iss e.expected_iss then go_on tt else stop 401 "invalid token issuer"
  ]

  pub check_audience : Claims → Check (Unit {0})
  unfolding has_text
  check_audience c =
      if str_eq e.expected_aud ""
      then go_on tt
      else if has_text e.expected_aud c.audience
      then go_on tt
      else stop 401 "invalid token audience"

  -- The token's claims, by the keys.
  pub verify : String → Check Claims
  unfolding check_issuer check_audience
  verify token =
      if not keys_found then stop 401 "authentication unavailable" else elim (parse token) [
        | none ↦ stop 401 "invalid token"
        | some c ↦ (do check_issuer c; check_audience c; go_on c)
      ]

  -- A raw token, where there are no keys.
  pub verify_legacy : String → Check (Unit {0})
  verify_legacy token =
      if e.allow_legacy
      then (if not (str_eq token e.admin_raw) && not (str_eq token e.internal_raw)
          then stop 401 "invalid legacy token"
          else go_on tt)
      else stop 500 "authentication not configured"

  -- A verified token, with whether it names an administrator.
  pub check_token : Bool → String → Check Bool
  unfolding verify verify_legacy is_admin
  check_token true token = do c ← verify token; go_on (is_admin text c)
  check_token false token = do verify_legacy token; go_on (str_eq token e.admin_raw)

  pub admin_only : Bool → Check (Unit {0})
  admin_only admin = if admin then go_on tt else stop 403 "admin required"

  -- The checks of a request, whose token is verified by the keys if `cache` is set.
  pub check_request : Bool → AuthRequest → Check (Unit {0})
  unfolding bearer_token check_token admin_only
  check_request cache req = do
    token ← bearer_token req.authorization
    admin ← check_token cache token
    if text.has_prefix req.path "/api/v1/admin" then admin_only admin else go_on tt

  pub access_of : Check (Unit {0}) → Access
  access_of (stop status message) = abort status message
  access_of (go_on _) = next

  -- The function that `AuthMiddleware` returns.
  unfoldable pub authorize : Bool → AuthRequest → Access
  unfolding check_request access_of
  authorize cache req =
      if str_eq req.full_path "/health" || str_eq req.path "/health"
      then next
      else access_of (check_request cache req)
