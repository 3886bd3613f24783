-- ===== src/Parser/Limits.antt =====
-- What `Parse` accepts, and the cells of the rows it returns.
use bulk.Base.{
  ℕ, zero, suc, ◌+◌, String, ◌≡◌, ◌≢◌, refl, false, List, [], ◌∷◌, map, length, Option, none, some,
  arith, get_elem?, eq_iff, if◌then◌else◌, str_eq, lookup, lookup-insert, ◌⊎◌, inl, inr, Bool-cases,
}
use mathlib.Core.List.{Mem, mem-cons_self, mem-cons_of_mem}
use bulk.Base.Int.{ℤ, pos, ◌≤ℤ◌}
use bulk.Domain.{Fields}
use bulk.World.{Result, ok, err}
use bulk.Parser.Columns.{TextOps, detect_columns}
use bulk.Parser.Sheet.{
  XlsParser, Row, exceeds, code_of, count_recognized, put_cell, fill_row, fill_rows, parse,
  parse_sheet, parse_read,
}

-- n numbers from i on.
abbrev pub numbers : ℕ → ℕ → List ℕ
numbers i zero = []
numbers i (suc n) = i ∷ numbers (suc i) n

-- The trimmed cell of the last column that names `code`, or `found` where there is no such column.
abbrev pub last_cell :
    TextOps
    → List (String × String)
    → String
    → List String
    → List String
    → Option String
    → Option String
last_cell text columns code [] row found = found
last_cell text columns code (h ∷ hs) [] found = last_cell text columns code hs [] found
last_cell text columns code (h ∷ hs) (c ∷ cs) found =
    last_cell text columns code hs cs
      (if str_eq (code_of columns h) code then some (text.trim_space c) else found)

module _ (text : TextOps) (p : XlsParser) (columns : List (String × String)) where
  fill_rows-numbers :
      (i : ℕ) (headers : List String) (rows : List (List String))
      → map (λ (r : Row). r.row_number) (fill_rows text p columns i headers rows)
        ≡ numbers (i + 2) (length rows)
  unfolding fill_rows
  fill_rows-numbers i headers [] = refl
  fill_rows-numbers i headers (row ∷ rows) = ground (arith, fill_rows-numbers (suc i) headers rows)

  fill_rows-get_elem? :
      (i n : ℕ) (headers row : List String) (rows : List (List String))
      → get_elem? rows n ≡ some row
      → get_elem? (fill_rows text p columns i headers rows) n
        ≡ some
            (record { fields = fill_row text p columns 0 headers row []; row_number = i + n + 2 })
  unfolding fill_rows
  fill_rows-get_elem? i n headers row [] h = ground arith
  fill_rows-get_elem? i zero headers row (x ∷ rows) h = ground arith
  fill_rows-get_elem? i (suc n) headers row (x ∷ rows) h =
      ground (arith, fill_rows-get_elem? (suc i) n headers row rows h)

  fill_row-lookup :
      (i : ℕ) (hs row : List String) (fields : Fields) (code : String)
      → code ≢ ""
      → exceeds p.max_cols (i + length hs) ≡ false
      → lookup code (fill_row text p columns i hs row fields)
        ≡ last_cell text columns code hs row (lookup code fields)
  unfolding fill_row
  fill_row-lookup i [] row fields code named h = refl
  fill_row-lookup i (x ∷ hs) [] fields code named h =
      ground (arith, fill_row-lookup (suc i) hs [] fields code named)
  fill_row-lookup i (x ∷ hs) (c ∷ cs) fields code named h = ground (
    arith,
    eq_iff (code_of columns x) code,
    eq_iff (code_of columns x) "",
    lookup-insert (code_of columns x) code (text.trim_space c) fields,
    fill_row-lookup (suc i) hs cs (put_cell text p columns (code_of columns x) c fields) code named,
  )

-- There is no limit above 0, or it is kept.
abbrev pub Within : ℤ → ℕ → Type 0
Within limit n = (limit ≤ℤ pos 0) ⊎ (pos n ≤ℤ limit)

-- One of the headers names a field.
abbrev pub NamesField : List (String × String) → List String → Type 0
NamesField columns headers =
    (header : String) × (field : String) × (Mem header headers
      × (lookup header columns ≡ some field)
      × (field ≢ ""))

exceeds-Within : (limit : ℤ) (n : ℕ) → exceeds limit n ≡ false → Within limit n
exceeds-Within limit n h = ground arith

text_of-named :
    (found : Option String)
    → str_eq (elim found [ none ↦ "" | some code ↦ code ]) "" ≡ false
    → (field : String) × (found ≡ some field) × (field ≢ "")
text_of-named none h = absurd (ground (arith, h))
text_of-named (some code) h = (code, refl, ground (arith, h, eq_iff code ""))

count_recognized-NamesField :
    (columns : List (String × String)) (headers : List String)
    → count_recognized columns headers ≢ 0
    → NamesField columns headers
unfolding count_recognized
count_recognized-NamesField columns [] h = absurd (h refl)
count_recognized-NamesField columns (x ∷ xs) h = elim (Bool-cases (str_eq (code_of columns x) "")) [
  | inl nameless ↦
      let (header, field, (m, found, named)) =
        count_recognized-NamesField columns xs (ground (arith, nameless, h)) in
      (header, field, (mem-cons_of_mem x m, found, named))
  | inr named ↦
      let (field, found, known) = text_of-named (lookup x columns) named in
      (x, field, (mem-cons_self, found, known))
]

module _ (text : TextOps) (p : XlsParser) (revision : String) where
  -- A file that is accepted is within each of the three limits that is above 0, has a sheet that can
  -- be read, with a header that names a field, and gives one row for each row under the headers, with the numbers 2, 3, ….
  pub parse-numbers :
      (size : ℕ) (sheet : Result (List (List String))) (found : List Row)
      → parse text p revision size sheet ≡ ok found
      → (headers : List String) × (rows : List (List String)) × (sheet ≡ ok (headers ∷ rows))
        × Within p.max_file_size size
        × Within p.max_cols (length headers)
        × Within p.max_rows (length rows)
        × NamesField (detect_columns text headers revision) headers
        × (map (λ r. r.row_number) found ≡ numbers 2 (length rows))
  unfolding parse parse_read parse_sheet
  parse-numbers size (err e) found h = ground arith
  parse-numbers size (ok []) found h = ground arith
  parse-numbers size (ok (headers ∷ rows)) found h = (
    headers,
    rows,
    refl,
    exceeds-Within p.max_file_size size (ground arith),
    exceeds-Within p.max_cols (length headers) (ground arith),
    exceeds-Within p.max_rows (length rows) (ground arith),
    count_recognized-NamesField (detect_columns text headers revision) headers (ground arith),
    ground (arith, fill_rows-numbers text p (detect_columns text headers revision) 0 headers rows),
  )

  -- A file within the limits, with a header that is recognised, is accepted: row n under the headers
  -- gets the number n + 2, and each field of it is the trimmed cell of the last column of that field.
  pub parse-last_cell :
      (size n : ℕ) (headers row : List String) (rows : List (List String)) (code : String)
      → exceeds p.max_file_size size ≡ false
      → exceeds p.max_cols (length headers) ≡ false
      → exceeds p.max_rows (length rows) ≡ false
      → count_recognized (detect_columns text headers revision) headers ≢ 0
      → code ≢ ""
      → get_elem? rows n ≡ some row
      → (found : List Row) × (r : Row) × (parse text p revision size (ok (headers ∷ rows))
          ≡ ok found)
        × (get_elem? found n ≡ some r)
        × (r.row_number ≡ n + 2)
        × (lookup code r.fields
            ≡ last_cell text (detect_columns text headers revision) code headers row none)
  unfolding parse parse_read parse_sheet
  parse-last_cell size n headers row rows code small narrow short known named h =
      let columns = detect_columns text headers revision in
      (
        fill_rows text p columns 0 headers rows,
        record { fields = fill_row text p columns 0 headers row []; row_number = n + 2 },
        ground arith,
        ground (arith, fill_rows-get_elem? text p columns 0 n headers row rows h),
        refl,
        fill_row-lookup text p columns 0 headers row [] code named (ground arith),
      )
