-- ===== src/Auth/Admitted.antt =====
-- What a request that is let in has shown.
use bulk.Base.{
  String, ◌≡◌, ◌⊎◌, inl, inr, refl, Bool, true, false, ◌||◌, List, [], ◌∷◌, Option, none, some,
  arith, if◌then◌else◌, str_eq, eq_iff, Any, Bool-cases, Option-cases,
}
use bulk.Auth.{
  Claims, HeaderText, AuthEnv, AuthRequest, next, Check, stop, go_on, ◌>>=◌, has_text, has_admin,
  contains_admin, bearer_token, check_issuer, check_audience, verify, verify_legacy, is_admin,
  check_token, admin_only, check_request, access_of, authorize,
}

-- A claim that holds a text in which "admin" occurs.
abbrev pub NamesAdmin : HeaderText → Option String → Type 0
NamesAdmin text claim = (s : String) × (claim ≡ some s) × (text.contains s "admin" ≡ true)

abbrev pub IsAdmin : HeaderText → Claims → Type 0
IsAdmin text c =
    NamesAdmin text c.role ⊎ Any (λ r. r ≡ some "admin") c.roles ⊎ NamesAdmin text c.scope

-- The issuer and the audience are those that are expected, where one is.
abbrev pub IsExpected : AuthEnv → Claims → Type 0
IsExpected e c =
    ((e.expected_iss ≡ "") ⊎ (c.issuer ≡ some e.expected_iss))
    × ((e.expected_aud ≡ "") ⊎ Any (λ a. a ≡ e.expected_aud) c.audience)

bind-eq-go_on :
    {A B : Type 0} (m : Check A) (k : A → Check B) {b : B}
    → (m >>= k) ≡ go_on b
    → (a : A) × (m ≡ go_on a) × (k a ≡ go_on b)
bind-eq-go_on (stop status message) k h = cc
bind-eq-go_on (go_on a) k h = (a, refl, h)

has_text-Any : (s : String) (xs : List String) → has_text s xs ≡ true → Any (λ x. x ≡ s) xs
unfolding has_text
has_text-Any s [] h = cc
has_text-Any s (x ∷ xs) h = elim (Bool-cases (str_eq x s)) [
  | inl same ↦ inl ((eq_iff x s).0 same)
  | inr other ↦ inr (has_text-Any s xs (ground (arith, other, h)))
]

has_admin-Any : (rs : List (Option String)) → has_admin rs ≡ true → Any (λ r. r ≡ some "admin") rs
unfolding has_admin
has_admin-Any [] h = cc
has_admin-Any (none ∷ rs) h = inr (has_admin-Any rs h)
has_admin-Any (some s ∷ rs) h = elim (Bool-cases (str_eq s "admin")) [
  | inl same ↦ inl (ground (arith, eq_iff s "admin", same))
  | inr other ↦ inr (has_admin-Any rs (ground (arith, other, h)))
]

contains_admin-NamesAdmin :
    (text : HeaderText) (claim : Option String)
    → contains_admin text claim ≡ true
    → NamesAdmin text claim
unfolding contains_admin
contains_admin-NamesAdmin text none h = cc
contains_admin-NamesAdmin text (some s) h = (s, refl, h)

-- What a request must show, by the keys or by a raw token.
abbrev pub IsTrusted :
    HeaderText → AuthEnv → Bool → (String → Option Claims) → Bool → Bool → String → Type 0
IsTrusted text e keys_found parse true to_admin token =
    (keys_found ≡ true)
    × (c : Claims) × (parse token ≡ some c)
    × IsExpected e c
    × ((to_admin ≡ false) ⊎ IsAdmin text c)
IsTrusted text e keys_found parse false to_admin token =
    (e.allow_legacy ≡ true)
    × ((token ≡ e.admin_raw) ⊎ ((token ≡ e.internal_raw) × (to_admin ≡ false)))

or_true : (a b : Bool) → (a || b) ≡ true → (a ≡ true) ⊎ (b ≡ true)
or_true a b h = ground arith

is_admin-IsAdmin : (text : HeaderText) (c : Claims) → is_admin text c ≡ true → IsAdmin text c
unfolding is_admin
is_admin-IsAdmin text c h = elim (or_true (contains_admin text c.role) _ h) [
  | inl role ↦ inl (contains_admin-NamesAdmin text c.role role)
  | inr rest ↦ elim (or_true (has_admin c.roles) _ rest) [
    | inl roles ↦ inr (inl (has_admin-Any c.roles roles))
    | inr scope ↦ inr (inr (contains_admin-NamesAdmin text c.scope scope))
  ]
]

module _ (text : HeaderText) (e : AuthEnv) (keys_found : Bool)
    (parse : String → Option Claims) where
  check_issuer_passed :
      (c : Claims)
      → check_issuer text e keys_found parse c ≡ go_on tt
      → (e.expected_iss ≡ "") ⊎ (c.issuer ≡ some e.expected_iss)
  unfolding check_issuer
  check_issuer_passed c h = elim (Option-cases c.issuer) [
    | inl missing ↦ ground (arith, missing, eq_iff e.expected_iss "")
    | inr (iss, given) ↦ ground (arith, given, eq_iff e.expected_iss "", eq_iff iss e.expected_iss)
  ]

  check_audience_passed :
      (c : Claims)
      → check_audience text e keys_found parse c ≡ go_on tt
      → (e.expected_aud ≡ "") ⊎ Any (λ a. a ≡ e.expected_aud) c.audience
  unfolding check_audience
  check_audience_passed c h = elim (Bool-cases (has_text e.expected_aud c.audience)) [
    | inl found ↦ inr (has_text-Any e.expected_aud c.audience found)
    | inr absent ↦ inl (ground (arith, absent, eq_iff e.expected_aud ""))
  ]

  verify_steps :
      (token : String) (c : Claims)
      → verify text e keys_found parse token ≡ go_on c
      → (keys_found ≡ true)
        × (parse token ≡ some c)
        × (check_issuer text e keys_found parse c ≡ go_on tt)
        × (check_audience text e keys_found parse c ≡ go_on tt)
  unfolding verify
  verify_steps token c h = elim (Option-cases (parse token)) [
    | inl refused ↦ ground (arith, refused)
    | inr (d, parsed) ↦ ground (arith, parsed)
  ]

  verify_passed :
      (token : String) (c : Claims)
      → verify text e keys_found parse token ≡ go_on c
      → (keys_found ≡ true) × (parse token ≡ some c) × IsExpected e c
  verify_passed token c h =
      let (found, parsed, issuer, audience) = verify_steps token c h in
      (found, parsed, (check_issuer_passed c issuer, check_audience_passed c audience))

  verify_legacy_passed :
      (token : String)
      → verify_legacy text e keys_found parse token ≡ go_on tt
      → (e.allow_legacy ≡ true) × ((token ≡ e.admin_raw) ⊎ (token ≡ e.internal_raw))
  unfolding verify_legacy
  verify_legacy_passed token h =
      ground (arith, eq_iff token e.admin_raw, eq_iff token e.internal_raw)

  check_token_passed :
      (cache to_admin admin : Bool) (token : String)
      → check_token text e keys_found parse cache token ≡ go_on admin
      → (to_admin ≡ false) ⊎ (admin ≡ true)
      → IsTrusted text e keys_found parse cache to_admin token
  unfolding check_token
  check_token_passed true to_admin admin token h allowed =
      let (c, verified, same) = bind-eq-go_on (verify text e keys_found parse token) _ h in
      let (found, parsed, expected) = verify_passed token c verified in
      (found, c, parsed, expected, admin_of c same allowed)
    where
      admin_of :
          (c : Claims)
          → ◌≡◌ {A = Check Bool} (go_on (is_admin text c)) (go_on admin)
          → (to_admin ≡ false) ⊎ (admin ≡ true)
          → (to_admin ≡ false) ⊎ IsAdmin text c
      admin_of c same (inl open_path) = inl open_path
      admin_of c same (inr yes_admin) = inr (is_admin-IsAdmin text c (ground arith))
  check_token_passed false to_admin admin token h allowed =
      let (u, verified, same) = bind-eq-go_on (verify_legacy text e keys_found parse token) _ h in
      let (legacy, raw) = verify_legacy_passed token verified in
      (legacy, ground (arith, eq_iff token e.admin_raw))

  bearer_token_passed :
      (auth token : String)
      → bearer_token text e keys_found parse auth ≡ go_on token
      → (scheme : String) × (text.cut_space auth ≡ some (scheme, token))
        × (text.to_lower scheme ≡ "bearer")
  unfolding bearer_token
  bearer_token_passed auth token h = elim (Option-cases (text.cut_space auth)) [
    | inl one_part ↦ absurd (ground (arith, one_part))
    | inr ((scheme, rest), cut) ↦
        (scheme, ground (arith, cut), ground (arith, cut, eq_iff (text.to_lower scheme) "bearer"))
  ]

  to_admin_passed :
      (to_admin admin : Bool)
      → (if to_admin then admin_only text e keys_found parse admin else go_on tt) ≡ go_on tt
      → (to_admin ≡ false) ⊎ (admin ≡ true)
  unfolding admin_only
  to_admin_passed to_admin admin h = ground arith

  check_request_passed :
      (cache : Bool) (req : AuthRequest)
      → check_request text e keys_found parse cache req ≡ go_on tt
      → (scheme : String) × (token : String) × (text.cut_space req.authorization
          ≡ some (scheme, token))
        × (text.to_lower scheme ≡ "bearer")
        × IsTrusted text e keys_found parse cache (text.has_prefix req.path "/api/v1/admin") token
  unfolding check_request
  check_request_passed cache req h =
      let (token, bearer, checked) =
        bind-eq-go_on (bearer_token text e keys_found parse req.authorization) _ h in
      let (admin, verified, allowed) =
        bind-eq-go_on (check_token text e keys_found parse cache token) _ checked in
      let (scheme, cut, lower) = bearer_token_passed req.authorization token bearer in
      (
        scheme,
        token,
        cut,
        lower,
        check_token_passed cache _ admin token verified (to_admin_passed _ admin allowed),
      )

  access_of-next :
      (c : Check (Unit {0})) → access_of text e keys_found parse c ≡ next → c ≡ go_on tt
  unfolding access_of
  access_of-next (stop status message) h = cc
  access_of-next (go_on tt) h = refl

  -- A request that is let in is one of the health probe, or has a bearer token that is trusted: by the
  -- keys, a token that parses, with the expected issuer and audience, or without them, where raw
  -- tokens are allowed, one of the two raw tokens; and for a path of the administrator a token with a
  -- claim of that role, or the raw token of the administrator.
  pub authorize-IsTrusted :
      (cache : Bool) (req : AuthRequest)
      → authorize text e keys_found parse cache req ≡ next
      → ((str_eq req.full_path "/health" || str_eq req.path "/health") ≡ true)
        ⊎ ((scheme : String) × (token : String) × (text.cut_space req.authorization
              ≡ some (scheme, token))
            × (text.to_lower scheme ≡ "bearer")
            × IsTrusted text e keys_found parse cache
                (text.has_prefix req.path "/api/v1/admin")
                token)
  unfolding authorize
  authorize-IsTrusted cache req h =
      elim (Bool-cases (str_eq req.full_path "/health" || str_eq req.path "/health")) [
        | inl probe ↦ inl probe
        | inr other ↦
            inr (check_request_passed cache req (access_of-next _ (ground (arith, other, h))))
      ]
