-- ===== src/Parser/Sheet.antt =====
-- internal/parser/xls_parser.go
use bulk.Base.{
  ℕ, suc, ◌+◌, String, Bool, ◌&&◌, List, [], ◌∷◌, length, none, some, if◌then◌else◌, str_eq, lookup,
  insert, ◌==◌,
}
use bulk.Base.Int.{ℤ, pos, ltb_ℤ}
use bulk.Domain.{Fields}
use bulk.World.{
  Result, ok, err, invalid_file_format, empty_file, too_many_rows, too_many_cols, invalid_headers,
}
use bulk.Parser.Columns.{TextOps, detect_columns}

-- `XLSParser`; a limit that is not positive is no limit.
pub record XlsParser : Type 0 where
  pub max_rows : ℤ
  pub max_cols : ℤ
  pub max_file_size : ℤ

-- A row of `ParseResult`; `row_number` is the number in its entry "_row".
pub record Row : Type 0 where
  pub fields : Fields
  pub row_number : ℕ

-- A limit that is set and passed by n.
abbrev pub exceeds : ℤ → ℕ → Bool
exceeds limit n = ltb_ℤ (pos 0) limit && ltb_ℤ limit (pos n)

-- `columnMap[h]`, with the empty text for a missing key
abbrev pub code_of : List (String × String) → String → String
code_of columns h = elim (lookup h columns) [ none ↦ "" | some code ↦ code ]

unfoldable pub count_recognized : List (String × String) → List String → ℕ
count_recognized columns [] = 0
count_recognized columns (h ∷ hs) =
    (if str_eq (code_of columns h) "" then 0 else 1) + count_recognized columns hs

module _ (text : TextOps) (p : XlsParser) (columns : List (String × String)) where
  abbrev pub put_cell : String → String → Fields → Fields
  put_cell code cell fields =
      if str_eq code "" then fields else insert code (text.trim_space cell) fields

  -- The loop over the headers, from column i on; `row` holds the cells from there on.
  unfoldable pub fill_row : ℕ → List String → List String → Fields → Fields
  fill_row i [] row fields = fields
  fill_row i (h ∷ hs) [] fields =
      let rest = fill_row (suc i) hs [] fields in
      if exceeds p.max_cols (suc i) then fields else rest
  fill_row i (h ∷ hs) (c ∷ cs) fields =
      let rest = fill_row (suc i) hs cs (put_cell (code_of columns h) c fields) in
      if exceeds p.max_cols (suc i) then fields else rest

  -- The loop over the data rows; row i of the data is row i + 2 of the sheet.
  unfoldable pub fill_rows : ℕ → List String → List (List String) → List Row
  unfolding fill_row
  fill_rows i headers [] = []
  fill_rows i headers (row ∷ rows) =
      record { fields = fill_row 0 headers row []; row_number = i + 2 }
      ∷ fill_rows (suc i) headers rows

module _ (text : TextOps) (p : XlsParser) (revision : String) where
  -- What `Parse` does with the rows of the sheet.
  unfoldable pub parse_sheet : List (List String) → Result (List Row)
  unfolding fill_rows count_recognized detect_columns
  parse_sheet [] = err empty_file
  parse_sheet (headers ∷ rows) =
      let columns = detect_columns text headers revision in
      if exceeds p.max_cols (length headers)
      then err too_many_cols
      else if exceeds p.max_rows (length rows)
      then err too_many_rows
      else if count_recognized columns headers == 0
      then err invalid_headers
      else ok (fill_rows text p columns 0 headers rows)

  unfoldable pub parse_read : Result (List (List String)) → Result (List Row)
  unfolding parse_sheet
  parse_read (err e) = err invalid_file_format
  parse_read (ok rows) = parse_sheet rows

  -- `XLSParser.Parse`, on a file of so many bytes in which `ReadFirstSheet` finds `sheet`
  unfoldable pub parse : ℕ → Result (List (List String)) → Result (List Row)
  unfolding parse_read
  parse size sheet =
      if exceeds p.max_file_size size then err invalid_file_format else parse_read sheet
