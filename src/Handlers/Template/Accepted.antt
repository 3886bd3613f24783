-- ===== src/Handlers/Template/Accepted.antt =====
-- A template that is uploaded as it was downloaded.
use bulk.Base.{
  ℕ, String, ◌≡◌, refl, true, false, Bool, List, [], ◌∷◌, map, length, All, arith, eq_iff, str_eq,
  Bool-cases, inl, inr, Option-cases,
}
use bulk.Domain.{Fields}
use bulk.World.{ok}
use bulk.Reader.{Readers, Workbook, is_zip, read_workbook, read_first_sheet}
use bulk.Parser.Columns.Small.{IsSmall, code_named, detect_column-small, build_alias_map_lem}
use bulk.Parser.Trimmed.{parse-one}
use bulk.Parser.Columns.{TextOps, default_column_aliases, detect_column, detect_columns}
use bulk.Parser.Sheet.{XlsParser, exceeds, count_recognized, parse}
use bulk.Validation.Rules.{
  load_rules, find_rule, check_rule, validate, validate_fields, validate_row,
}
use bulk.Handlers.Reply.{reply}
use bulk.Handlers.Template.{
  SheetFile, Template, template_headers, template_sample, set_cells, handle_download_template_xls,
}

-- The fields that the sample fills.
abbrev pub sample_fields : Fields
sample_fields =
    ("DAC", "JOHN")
    ∷ ("DCS", "DOE")
    ∷ ("DAG", "123 MAIN ST")
    ∷ ("DAI", "LOS ANGELES")
    ∷ ("DAJ", "CA")
    ∷ ("DAK", "90001")
    ∷ ("DBB", "19900115")
    ∷ ("DBA", "20280115")
    ∷ ("DBD", "20240115")
    ∷ []

-- The codes in small letters.
abbrev pub small_letters : List (String × String)
small_letters =
    ("DAC", "dac")
    ∷ ("DCS", "dcs")
    ∷ ("DAG", "dag")
    ∷ ("DAI", "dai")
    ∷ ("DAJ", "daj")
    ∷ ("DAK", "dak")
    ∷ ("DBB", "dbb")
    ∷ ("DBA", "dba")
    ∷ ("DBD", "dbd")
    ∷ []

-- What Go's functions do with the texts at hand: words without spaces at their ends are not trimmed, the
-- aliases are in small letters, and the codes have the small letters that are listed.
pub record IsGoText (text : TextOps) : Type 0 where
  pub headers : All (λ (h, s). (text.trim_space h ≡ h) × (text.to_lower h ≡ s)) small_letters
  pub sample : All (λ v. text.trim_space v ≡ v) template_sample
  pub aliases : IsSmall text default_column_aliases

template_rows :
    (x : SheetFile) (revision : String) (t : Template)
    → handle_download_template_xls x revision ≡ reply 200 t
    → t.rows ≡ template_headers ∷ template_sample ∷ []
unfolding handle_download_template_xls
template_rows x revision t h = elim (Option-cases (set_cells x 1 1 template_headers)) [
  | inr (e, fails) ↦ ground (arith, fails, h)
  | inl headers_set ↦ elim (Option-cases (set_cells x 2 1 template_sample)) [
    | inr (e, fails) ↦ ground (arith, headers_set, fails, h)
    | inl sample_set ↦ elim (Option-cases x.write) [
      | inr (e, fails) ↦ ground (arith, headers_set, sample_set, fails, h)
      | inl sent ↦ ground (arith, headers_set, sample_set, sent, h)
    ]
  ]
]

-- The columns of the template, each by its own code.
abbrev template_columns : List (String × String)
template_columns = map (λ h. (h, h)) template_headers

-- A code is found by its small letters.
abbrev IsFound : String × String → Type 0
IsFound (h, s) = (code_named s default_column_aliases ≡ h) × (str_eq h "" ≡ false)

small_letters-IsFound : All IsFound small_letters
small_letters-IsFound = ground arith

module _ (text : TextOps) (given : IsGoText text) where
  each_detected :
      (pairs : List (String × String))
      → All (λ (h, s). (text.trim_space h ≡ h) × (text.to_lower h ≡ s)) pairs
      → All IsFound pairs
      → map {B = String × String} (λ (h, s). (h, detect_column text default_column_aliases h)) pairs
        ≡ map {B = String × String} (λ (h, s). (h, h)) pairs
  each_detected [] kept found = refl
  each_detected ((h, s) ∷ pairs) kept found = ground (
    arith,
    detect_column-small text default_column_aliases h s h given.aliases kept.0.0 kept.0.1 found.0.0
        (ground (arith, found.0.1, eq_iff h "")),
    each_detected pairs kept.1 found.1,
  )

  detect_columns-template :
      (revision : String) → detect_columns text template_headers revision ≡ template_columns
  unfolding detect_columns
  detect_columns-template revision =
      rw (build_alias_map_lem revision)
        (each_detected small_letters given.headers small_letters-IsFound)

  parse-template :
      (p : XlsParser) (revision : String) (size : ℕ)
      → exceeds p.max_file_size size ≡ false
      → exceeds p.max_cols 9 ≡ false
      → exceeds p.max_rows 1 ≡ false
      → parse text p revision size (ok (template_headers ∷ template_sample ∷ []))
        ≡ ok (record { fields = sample_fields; row_number = 2 } ∷ [])
  unfolding count_recognized
  parse-template p revision size small narrow short =
      parse-one text p template_columns revision size 8 template_headers template_sample small
        narrow short (detect_columns-template revision) refl given.sample

-- The sample against the patterns of its fields.
abbrev pub IsMatched : (String → String → Bool) → Type 0
IsMatched matches =
    All (λ (pattern, value). matches pattern value ≡ true)
      (("^[A-Za-z '-]+$", "JOHN")
        ∷ ("^[A-Za-z '-]+$", "DOE")
        ∷ ("^[A-Z]{2}$", "CA")
        ∷ ("^\\d{5}(\\d{4})?$", "90001")
        ∷ ("^\\d{8}$", "19900115")
        ∷ ("^\\d{8}$", "20280115")
        ∷ ("^\\d{8}$", "20240115")
        ∷ [])

validate_row-sample :
    (matches : String → String → Bool) (revision : String)
    → IsMatched matches
    → validate_row matches (load_rules revision) sample_fields
      ≡ record { valid = true; errors = [] }
unfolding load_rules find_rule check_rule validate validate_fields validate_row
validate_row-sample matches revision (john, (doe, (ca, (zip, (born, (expires, (issued, _))))))) =
    elim (Bool-cases (str_eq revision "US_CA_08292017")) [
      | inl us ↦ rw (us, john, doe, ca, zip, born, expires, issued) refl
      | inr other ↦ elim (Bool-cases (str_eq revision "v1")) [
        | inl v1 ↦ rw (other, v1) refl
        | inr unknown ↦ rw (other, unknown) refl
      ]
    ]

-- Where the bytes that are uploaded are opened as the workbook that was downloaded, within the limits of
-- the parser, with Go's functions on the texts at hand, and patterns that match the sample: a template, for whatever revision, is accepted as it is, with one row under its headers,
-- which has every field of the sample under its code and is valid.
pub handle_download_template_xls-accepted :
    (x : SheetFile) (revision : String) (t : Template) (r : Readers) (bytes : List ℕ)
    (book : Workbook) (name : String) (names : List String) (text : TextOps) (p : XlsParser)
    (matches : String → String → Bool)
    → handle_download_template_xls x revision ≡ reply 200 t
    → is_zip bytes ≡ true
    → r.open_workbook bytes ≡ ok book
    → book.sheets ≡ name ∷ names
    → book.get_rows name ≡ ok t.rows
    → IsGoText text
    → IsMatched matches
    → exceeds p.max_file_size (length bytes) ≡ false
    → exceeds p.max_cols 9 ≡ false
    → exceeds p.max_rows 1 ≡ false
    → (parse text p revision (length bytes) (read_first_sheet r (ok bytes))
        ≡ ok (record { fields = sample_fields; row_number = 2 } ∷ []))
      × (validate_row matches (load_rules revision) sample_fields
          ≡ record { valid = true; errors = [] })
unfolding read_first_sheet read_workbook
handle_download_template_xls-accepted x revision t r bytes book name names text p matches sent zip
      opened first rows given matched small narrow short =
    let read : read_first_sheet r (ok bytes) ≡ ok (template_headers ∷ template_sample ∷ []) =
      ground (arith, zip, opened, first, rows, template_rows x revision t sent) in
    (
      rw read (parse-template text given p revision (length bytes) small narrow short),
      validate_row-sample matches revision matched,
    )
