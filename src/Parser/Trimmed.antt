-- ===== src/Parser/Trimmed.antt =====
-- Rows whose cells have no spaces at their ends.
use bulk.Base.{
  ℕ, suc, ◌+◌, String, ◌≡◌, refl, false, List, [], ◌∷◌, length, All, arith, if◌then◌else◌, str_eq,
  insert, subst,
}
use bulk.Domain.{Fields}
use bulk.Parser.Columns.{TextOps, detect_columns}
use bulk.Parser.Sheet.{
  XlsParser, exceeds, code_of, put_cell, fill_row, fill_rows, count_recognized, parse, parse_read,
  parse_sheet,
}
use bulk.World.{ok}

-- The cells under known headers, by their codes.
abbrev pub plain_row : List (String × String) → List String → List String → Fields → Fields
plain_row columns [] row fields = fields
plain_row columns (h ∷ hs) [] fields = plain_row columns hs [] fields
plain_row columns (h ∷ hs) (c ∷ cs) fields =
    plain_row columns hs cs
      (if str_eq (code_of columns h) "" then fields else insert (code_of columns h) c fields)

module _ (text : TextOps) (p : XlsParser) (columns : List (String × String)) where
  pub fill_row-plain :
      (i : ℕ) (hs row : List String) (fields : Fields)
      → exceeds p.max_cols (i + length hs) ≡ false
      → All (λ c. text.trim_space c ≡ c) row
      → fill_row text p columns i hs row fields ≡ plain_row columns hs row fields
  unfolding fill_row
  fill_row-plain i [] row fields h t = refl
  fill_row-plain i (x ∷ hs) [] fields h t = ground (arith, fill_row-plain (suc i) hs [] fields)
  fill_row-plain i (x ∷ hs) (c ∷ cs) fields h t = ground (
    arith,
    t.0,
    fill_row-plain (suc i) hs cs (put_cell text p columns (code_of columns x) c fields),
    t.1,
  )

  pub parse-one :
      (revision : String) (size n : ℕ) (headers row : List String)
      → exceeds p.max_file_size size ≡ false
      → exceeds p.max_cols (length headers) ≡ false
      → exceeds p.max_rows 1 ≡ false
      → detect_columns text headers revision ≡ columns
      → count_recognized columns headers ≡ suc n
      → All (λ c. text.trim_space c ≡ c) row
      → parse text p revision size (ok (headers ∷ row ∷ []))
        ≡ ok (record { fields = plain_row columns headers row []; row_number = 2 } ∷ [])
  unfolding parse parse_read parse_sheet fill_rows
  parse-one revision size n headers row small narrow short detected known trimmed =
      let first : exceeds p.max_cols (0 + length headers) ≡ false =
        subst (λ n. exceeds p.max_cols n ≡ false) (omega arith) narrow in
      ground (
        arith,
        small,
        narrow,
        short,
        detected,
        known,
        fill_row-plain 0 headers row [] first trimmed,
      )
