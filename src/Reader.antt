-- ===== src/Reader.antt =====
-- pkg/xls/reader.go: the reading of the first sheet of a file. Excelize, extrame/xls, encoding/csv and the
-- temporary file are parameters; a file is its bytes.
use bulk.Base.{
  ℕ, zero, suc, String, Bool, false, ◌&&◌, List, [], ◌∷◌, Option, none, some, if◌then◌else◌, ◌==◌,
}
use bulk.World.{Error, Result, ok, err}

abbrev pub Table : Type 0
Table = List (List String)

-- A workbook of excelize: its sheets in order, and the rows of a sheet.
pub record Workbook : Type 0 where
  pub sheets : List String
  pub get_rows : String → Result Table

-- A sheet of extrame/xls: the index of its last row, the number of columns of a row, and the cells.
pub record OldSheet : Type 0 where
  pub max_row : ℕ
  pub last_col : ℕ → ℕ
  pub col : ℕ → ℕ → String

-- What the libraries answer to the bytes of a file. `first_old_sheet` is none where there is no workbook,
-- no sheet in it, or no first one; `temp_fault` is the first error of the temporary file.
pub record Readers : Type 0 where
  pub open_workbook : List ℕ → Result Workbook
  pub temp_fault : Option Error
  pub first_old_sheet : List ℕ → Result (Option OldSheet)
  pub read_csv : List ℕ → Result Table

unfoldable pub is_zip : List ℕ → Bool
is_zip (a ∷ b ∷ rest) = a == 80 && b == 75
is_zip _ = false

pub is_ole : List ℕ → Bool
is_ole (a ∷ b ∷ c ∷ d ∷ rest) = a == 208 && b == 207 && c == 17 && d == 224
is_ole _ = false

module _ (r : Readers) where
  -- The rows of the first sheet of a workbook.
  unfoldable pub read_workbook : List ℕ → Result Table
  read_workbook bytes = elim (r.open_workbook bytes) [
    | err e ↦ err e
    | ok book ↦ elim book.sheets [ [] ↦ ok [] | name ∷ names ↦ book.get_rows name ]
  ]

  -- The cells of a row from column j on, of which `left` are left, and the rows from row i on.
  old_cells : OldSheet → ℕ → ℕ → ℕ → List String
  old_cells sheet i j zero = []
  old_cells sheet i j (suc left) = sheet.col i j ∷ old_cells sheet i (suc j) left

  old_rows : OldSheet → ℕ → ℕ → Table
  unfolding old_cells
  old_rows sheet i zero = []
  old_rows sheet i (suc left) = old_cells sheet i 0 (sheet.last_col i) ∷ old_rows sheet (suc i) left

  -- `readXLSFile`
  pub read_xls_file : List ℕ → Result Table
  unfolding old_rows
  read_xls_file bytes = elim (r.first_old_sheet bytes) [
    | err e ↦ err e
    | ok found ↦ elim found [
      | none ↦ ok []
      | some sheet ↦ ok (old_rows sheet 0 (suc sheet.max_row))
    ]
  ]

  -- `ReadFirstSheet`, on what is read of the file.
  unfoldable pub read_first_sheet : Result (List ℕ) → Result Table
  unfolding is_zip is_ole read_workbook read_xls_file
  read_first_sheet (err e) = err e
  read_first_sheet (ok bytes) =
      if is_zip bytes
      then read_workbook bytes
      else if is_ole bytes
      then elim r.temp_fault [ some e ↦ err e | none ↦ read_xls_file bytes ]
      else r.read_csv bytes
