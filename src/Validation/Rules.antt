-- ===== src/Validation/Rules.antt =====
-- The rules of the revisions (pkg/validation/rules, embedded in the program), and the checks.
use Prim.Native.String.{len, ◌++◌ as append_text}
use bulk.Base.{
  ℕ, String, Bool, true, false, ◌&&◌, not, List, [], ◌∷◌, ◌++◌, Option, none, some, if◌then◌else◌,
  str_eq, ltb,
}
use bulk.Domain.{Fields}

-- A pattern is the text of a regular expression. Lengths are those of the rule files, never negative;
-- 0 stands for no bound.
pub record FieldRule : Type 0 where
  pub pattern : Option String
  pub min_length : ℕ
  pub max_length : ℕ
  pub required : Bool

abbrev pub FieldRules : Type 0
FieldRules = List (String × FieldRule)

-- A `ValidationError`; its message names the field.
pub record FieldError : Type 0 where
  pub code : String
  pub message : String

pub record ValidationResult : Type 0 where
  pub valid : Bool
  pub errors : List FieldError

abbrev rule : Option String → ℕ → ℕ → Bool → FieldRule
rule pattern low high required = record {
  pattern = pattern;
  min_length = low;
  max_length = high;
  required = required;
}

-- rules/US_CA_08292017.yaml
abbrev us_ca_rules : FieldRules
us_ca_rules =
    ("DAC", rule (some "^[A-Za-z '-]+$") 1 40 true)
    ∷ ("DCS", rule (some "^[A-Za-z '-]+$") 1 40 true)
    ∷ ("DBB", rule (some "^\\d{8}$") 0 0 true)
    ∷ ("DAG", rule none 1 100 true)
    ∷ ("DAI", rule none 1 50 true)
    ∷ ("DAJ", rule (some "^[A-Z]{2}$") 2 2 true)
    ∷ ("DAK", rule (some "^\\d{5}(\\d{4})?$") 5 9 true)
    ∷ ("DBA", rule (some "^\\d{8}$") 0 0 true)
    ∷ ("DBD", rule (some "^\\d{8}$") 0 0 true)
    ∷ []

-- rules/v1.yaml, which has the rules of the fallback in the code.
abbrev v1_rules : FieldRules
v1_rules =
    ("passportNumber", rule (some "^[A-Z0-9]{6,10}$") 6 10 true)
    ∷ ("fullName", rule none 2 200 true)
    ∷ ("birthDate", rule (some "^\\d{4}-\\d{2}-\\d{2}$") 0 0 false)
    ∷ []

-- `loadRulesForRevision`: a revision with no file has no rules.
unfoldable pub load_rules : String → FieldRules
load_rules revision =
    if str_eq revision "US_CA_08292017"
    then us_ca_rules
    else if str_eq revision "v1"
    then v1_rules
    else []

unfoldable pub find_rule : String → FieldRules → Option FieldRule
find_rule k [] = none
find_rule k ((j, r) ∷ rs) = if str_eq j k then some r else find_rule k rs

-- `fmt.Sprintf("Field %s …", field)`, with what stands before and after the field
abbrev field_error : String → String → String → Option FieldError
field_error code field rest =
    some (record { code = code; message = append_text "Field " (append_text field rest) })

module _ (matches : String → String → Bool) where
  abbrev mismatch : Option String → String → Bool
  mismatch none value = false
  mismatch (some p) value = not (matches p value)

  -- The four tests of `Validate`, in their order.
  unfoldable pub check_rule : FieldRule → String → String → Option FieldError
  check_rule r field value =
      if r.required && str_eq value ""
      then field_error "MISSING_MANDATORY" field " is required"
      else if not (str_eq value "") && mismatch r.pattern value
      then field_error "INVALID_FORMAT" field " has invalid format"
      else if ltb 0 r.min_length && ltb (len value) r.min_length
      then field_error "TOO_SHORT" field " is too short"
      else if ltb 0 r.max_length && ltb r.max_length (len value)
      then field_error "TOO_LONG" field " is too long"
      else none

module _ (matches : String → String → Bool) (rules : FieldRules) where
  -- `FieldValidator.Validate`
  unfoldable pub validate : String → String → Option FieldError
  unfolding find_rule check_rule
  validate field value = elim (find_rule field rules) [
    | none ↦ none
    | some r ↦ check_rule matches r field value
  ]

  abbrev add_error : Option FieldError → ValidationResult → ValidationResult
  add_error none res = res
  add_error (some e) res = record { valid = false; errors = res.errors ++ e ∷ [] }

  unfoldable pub validate_fields : ValidationResult → Fields → ValidationResult
  validate_fields res [] = res
  validate_fields res ((field, value) ∷ fields) =
      validate_fields (add_error (validate field value) res) fields

  -- `FieldValidator.ValidateRow`
  unfoldable pub validate_row : Fields → ValidationResult
  unfolding validate_fields
  validate_row = validate_fields (record { valid = true; errors = [] })
