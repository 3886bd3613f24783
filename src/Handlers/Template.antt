-- ===== src/Handlers/Template.antt =====
-- `HandleDownloadTemplateXLS`: GET /template/{revision}. What excelize answers is a parameter, and the
-- file is the rows of texts that were written to its first sheet.
pub mod Accepted
use bulk.Base.{ℕ, suc, String, List, [], ◌∷◌, Option, none, some}
use bulk.Handlers.Reply.{Reply, reply, failure}

-- The errors of `SetCellValue`, by row and column, and of `Write`.
pub record SheetFile : Type 0 where
  pub set_cell : ℕ → ℕ → String → Option String
  pub write : Option String

pub record Template : Type 0 where
  pub revision : String
  pub rows : List (List String)

abbrev pub template_headers : List String
template_headers = "DAC" ∷ "DCS" ∷ "DAG" ∷ "DAI" ∷ "DAJ" ∷ "DAK" ∷ "DBB" ∷ "DBA" ∷ "DBD" ∷ []

abbrev pub template_sample : List String
template_sample =
    "JOHN" ∷ "DOE" ∷ "123 MAIN ST" ∷ "LOS ANGELES" ∷ "CA" ∷ "90001" ∷ "19900115" ∷ "20280115"
    ∷ "20240115" ∷ []

-- The loop over the cells of a row from a column on: the error of the first that is not set.
unfoldable pub set_cells : SheetFile → ℕ → ℕ → List String → Option String
set_cells x row column [] = none
set_cells x row column (v ∷ vs) = elim (x.set_cell row column v) [
  | some e ↦ some e
  | none ↦ set_cells x row (suc column) vs
]

-- `HandleDownloadTemplateXLS`
unfoldable pub handle_download_template_xls : SheetFile → String → Reply Template
unfolding set_cells
handle_download_template_xls x revision = elim (set_cells x 1 1 template_headers) [
  | some e ↦ failure 500 "SERVICE_ERROR" "failed to build template"
  | none ↦ elim (set_cells x 2 1 template_sample) [
    | some e ↦ failure 500 "SERVICE_ERROR" "failed to build template"
    | none ↦ elim x.write [
      | some e ↦ failure 500 "SERVICE_ERROR" "failed to write template"
      | none ↦
          reply 200 (record { revision = revision; rows = template_headers ∷ template_sample ∷ [] })
    ]
  ]
]
