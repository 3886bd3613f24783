-- ===== src/Parser/Columns.antt =====
-- internal/parser/column_detector.go: which field of a licence a column's header names. The alias map
-- is a list here, so that its codes are tried in one order; no alias belongs to two codes.
pub mod Small
use bulk.Base.{
  String, Bool, true, false, List, [], ◌∷◌, ◌++◌, map, Option, none, some, if◌then◌else◌, str_eq,
  lookup,
}

-- `strings.ToLower`, `strings.ToUpper` and `strings.TrimSpace`
pub record TextOps : Type 0 where
  pub to_lower : String → String
  pub to_upper : String → String
  pub trim_space : String → String

abbrev pub Aliases : Type 0
Aliases = List (String × List String)

abbrev pub default_column_aliases : Aliases
default_column_aliases =
    ("DAC", "first_name" ∷ "firstname" ∷ "first name" ∷ "имя" ∷ "dac" ∷ [])
    ∷ ("DCS", "last_name" ∷ "lastname" ∷ "last name" ∷ "фамилия" ∷ "dcs" ∷ [])
    ∷ ("DBB", "dob" ∷ "date_of_birth" ∷ "birthdate" ∷ "дата рождения" ∷ "dbb" ∷ [])
    ∷ ("DAG", "address" ∷ "street" ∷ "street_address" ∷ "адрес" ∷ "dag" ∷ [])
    ∷ ("DAI", "city" ∷ "город" ∷ "dai" ∷ [])
    ∷ ("DAJ", "state" ∷ "штат" ∷ "daj" ∷ [])
    ∷ ("DAK", "zip" ∷ "zipcode" ∷ "zip_code" ∷ "индекс" ∷ "dak" ∷ [])
    ∷ ("DBA", "expiration" ∷ "exp_date" ∷ "expiry" ∷ "срок действия" ∷ "dba" ∷ [])
    ∷ ("DBD", "issue_date" ∷ "issued" ∷ "дата выдачи" ∷ "dbd" ∷ [])
    ∷ []

-- `revisionAliasExtensions`: the one revision that is listed adds nothing.
abbrev revision_alias_extensions : String → Aliases
revision_alias_extensions revision = if str_eq revision "US_CA_08292017" then [] else []

abbrev add_alias : String → List String → Aliases → Aliases
add_alias code extra [] = (code, extra) ∷ []
add_alias code extra ((c, l) ∷ m) =
    if str_eq c code then (c, l ++ extra) ∷ m else (c, l) ∷ add_alias code extra m

abbrev extend : Aliases → Aliases → Aliases
extend m [] = m
extend m ((code, extra) ∷ ext) = extend (add_alias code extra m) ext

-- `buildAliasMap`
unfoldable pub build_alias_map : String → Aliases
build_alias_map revision = extend default_column_aliases (revision_alias_extensions revision)

module _ (text : TextOps) where
  has_alias : String → List String → Bool
  has_alias norm [] = false
  has_alias norm (a ∷ l) = if str_eq norm (text.to_lower a) then true else has_alias norm l

  find_code : String → Aliases → String
  unfolding has_alias
  find_code norm [] = ""
  find_code norm ((code, l) ∷ m) = if has_alias norm l then code else find_code norm m

  fallback : Option (List String) → String → String
  fallback none up = ""
  fallback (some l) up = up

  -- The body of the loop of `DetectColumns`; "" is a column that is not known.
  unfoldable pub detect_column : Aliases → String → String
  unfolding find_code fallback
  detect_column aliases header =
      let norm = text.to_lower (text.trim_space header) in
      let found = find_code norm aliases in
      let up = text.to_upper norm in
      if str_eq found "" then fallback (lookup up aliases) up else found

  -- `DetectColumns`
  unfoldable pub detect_columns : List String → String → List (String × String)
  unfolding detect_column build_alias_map
  detect_columns headers revision =
      map (λ h. (h, detect_column (build_alias_map revision) h)) headers

-- `defaultRequiredFields`, which are also those of the one revision that is listed.
abbrev default_required_fields : List String
default_required_fields = "DAC" ∷ "DCS" ∷ "DBB" ∷ "DAG" ∷ "DAI" ∷ "DAJ" ∷ "DAK" ∷ "DBA" ∷ "DBD" ∷ []

-- `RequiredHeaders`
pub required_headers : String → List String
required_headers revision =
    if str_eq revision "US_CA_08292017" then default_required_fields else default_required_fields
