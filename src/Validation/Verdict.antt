-- ===== src/Validation/Verdict.antt =====
-- The verdict on a row.
use mathlib.Core.List.{
  filter_map, filter_map-cons-none, filter_map-cons-some, filter_map-append, Perm, append_assoc,
  append-nil,
}
use mathlib.Core.List.Perm
use bulk.Base.{
  String, ◌≡◌, refl, Bool, true, false, ◌&&◌, List, [], ◌∷◌, ◌++◌, Option, arith, ◌∙◌, sym, ap,
  Option-cases, inl, inr,
}
use bulk.Domain.{Fields}
use bulk.Validation.Rules.{
  FieldRules, FieldError, ValidationResult, validate, validate_fields, validate_row,
}

abbrev pub is_empty {ℓ} : {A : Type ℓ} → List A → Bool
is_empty [] = true
is_empty (_ ∷ _) = false

module _ (matches : String → String → Bool) (rules : FieldRules) where
  abbrev pub check_field : String × String → Option FieldError
  check_field (field, value) = validate matches rules field value

  -- The errors that the fields of a row should give.
  abbrev pub errors_of : Fields → List FieldError
  errors_of fields = filter_map check_field fields

  validate_fields_lem :
      (fields : Fields) (res : ValidationResult)
      → ((validate_fields matches rules res fields).errors ≡ res.errors ++ errors_of fields)
        × ((validate_fields matches rules res fields).valid
            ≡ (res.valid && is_empty (errors_of fields)))
  unfolding validate_fields filter_map
  validate_fields_lem [] res = (sym (append-nil res.errors), ground arith)
  validate_fields_lem (f ∷ fields) res = elim (Option-cases (check_field f)) [
    | inl passes ↦
        ground
          (arith, filter_map-cons-none check_field f fields passes, validate_fields_lem fields res)
    | inr (e, fails) ↦ ground (
      arith,
      filter_map-cons-some check_field f fields fails,
      validate_fields_lem fields (record { valid = false; errors = res.errors ++ e ∷ [] }),
      append_assoc res.errors (e ∷ []) (errors_of fields),
    )
  ]

  -- A row is valid exactly when no field of it breaks its rule, and the errors are those of the single
  -- fields.
  pub validate_row_lem :
      (fields : Fields)
      → validate_row matches rules fields
        ≡ record { valid = is_empty (errors_of fields); errors = errors_of fields }
  unfolding validate_row
  validate_row_lem fields =
      ground (arith, validate_fields_lem fields (record { valid = true; errors = [] }))

  is_empty-perm : (xs ys : List FieldError) → Perm xs ys → is_empty xs ≡ is_empty ys
  is_empty-perm [] ys p = ap is_empty (Perm.nil-eq p)
  is_empty-perm (x ∷ xs) [] p = ap is_empty (Perm.eq-nil p)
  is_empty-perm (x ∷ xs) (y ∷ ys) p = refl

  -- The order in which Go ranges over the fields of a row does not matter for the verdict, and changes
  -- only the order of the errors.
  pub validate_row-perm :
      (xs ys : Fields)
      → Perm xs ys
      → ((validate_row matches rules xs).valid ≡ (validate_row matches rules ys).valid)
        × Perm (validate_row matches rules xs).errors (validate_row matches rules ys).errors
  validate_row-perm xs ys p =
      rw (validate_row_lem xs, validate_row_lem ys)
        (
          is_empty-perm (errors_of xs) (errors_of ys) (Perm.filter_map check_field p),
          Perm.filter_map check_field p,
        )

  is_empty-append : (xs ys : List FieldError) → is_empty (xs ++ ys) ≡ (is_empty xs && is_empty ys)
  is_empty-append [] ys = refl
  is_empty-append (x ∷ xs) ys = refl

  -- Only the fields that a row has are checked: a row made of two parts has the errors of the one and
  -- then those of the other, and is valid if both are. So a required field that a row lacks is never
  -- reported: the row with no fields is valid by any rules.
  pub validate_row-append :
      (xs ys : Fields)
      → ((validate_row matches rules (xs ++ ys)).errors
          ≡ (validate_row matches rules xs).errors ++ (validate_row matches rules ys).errors)
        × ((validate_row matches rules (xs ++ ys)).valid
            ≡ ((validate_row matches rules xs).valid && (validate_row matches rules ys).valid))
        × ((validate_row matches rules []).valid ≡ true)
  unfolding filter_map
  validate_row-append xs ys =
      let joined = filter_map-append check_field xs ys in
      rw
        (validate_row_lem (xs ++ ys), validate_row_lem xs, validate_row_lem ys, validate_row_lem [])
        (joined, ap is_empty joined ∙ is_empty-append (errors_of xs) (errors_of ys), refl)
