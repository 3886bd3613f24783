-- ===== src/Parser/Columns/Small.antt =====
-- Columns whose headers are aliases.
use bulk.Base.{
  String, ◌≡◌, ◌≢◌, refl, Bool, true, false, List, [], ◌∷◌, All, arith, if◌then◌else◌, str_eq,
  eq_iff, Bool-cases, inl, inr,
}
use bulk.Parser.Columns.{
  TextOps, Aliases, default_column_aliases, build_alias_map, has_alias, find_code, detect_column,
}

-- Whether a text is one of the names, and the first code with it, without the small letters.
abbrev is_listed : String → List String → Bool
is_listed norm [] = false
is_listed norm (a ∷ l) = if str_eq norm a then true else is_listed norm l

abbrev pub code_named : String → Aliases → String
code_named norm [] = ""
code_named norm ((code, l) ∷ m) = if is_listed norm l then code else code_named norm m

abbrev pub IsSmall : TextOps → Aliases → Type 0
IsSmall text = All (λ (code, names). All (λ a. text.to_lower a ≡ a) names)

module _ (text : TextOps) where
  has_alias-small :
      (norm : String) (l : List String)
      → All (λ a. text.to_lower a ≡ a) l
      → has_alias text norm l ≡ is_listed norm l
  unfolding has_alias
  has_alias-small norm [] h = refl
  has_alias-small norm (a ∷ l) h = ground (arith, h.0, has_alias-small norm l h.1)

  find_code-small :
      (norm : String) (m : Aliases) → IsSmall text m → find_code text norm m ≡ code_named norm m
  unfolding find_code
  find_code-small norm [] h = refl
  find_code-small norm ((code, l) ∷ m) h =
      ground (arith, has_alias-small norm l h.0, find_code-small norm m h.1)

  pub detect_column-small :
      (m : Aliases) (header norm code : String)
      → IsSmall text m
      → text.trim_space header ≡ header
      → text.to_lower header ≡ norm
      → code_named norm m ≡ code
      → code ≢ ""
      → detect_column text m header ≡ code
  unfolding detect_column
  detect_column-small m header norm code small trimmed lower found named =
      ground (arith, trimmed, lower, find_code-small norm m small, found, named, eq_iff code "")

pub build_alias_map_lem : (revision : String) → build_alias_map revision ≡ default_column_aliases
unfolding build_alias_map
build_alias_map_lem revision = elim (Bool-cases (str_eq revision "US_CA_08292017")) [
  | inl known ↦ ground (arith, known)
  | inr other ↦ ground (arith, other)
]
