-- ===== src/Handlers/Download/Rows.antt =====
-- The rows of a download of results, where no row fails, and next to those of an export.
use bulk.Base.{
  ℕ, zero, suc, ◌+◌, ◌≤◌, ◌≡◌, refl, Bool-cases, Option-cases, inl, inr, false, List, [], ◌∷◌, ◌++◌,
  map, take, none, arith,
}
use mathlib.Core.List.{append_assoc, append-nil}
use bulk.Base.Int.{ℤ, pos, negsuc, ltb_ℤ}
use bulk.Domain.{JobResult}
use bulk.Barcode.{UrlText, parse_barcode_urls}
use bulk.Sheets.{Cell, number, word, Line, Xlsx, Written, written, broken, past_limit, export_rows}
use bulk.Handlers.Download.{download_rows}

-- The rows from number `row` on.
abbrev pub numbered : ℕ → List (List Cell) → List Line
numbered row [] = []
numbered row (cells ∷ rest) = (row, cells) ∷ numbered (suc row) rest

-- The first `limit` elements, and all of them where the limit is not above 0.
abbrev pub limited : {A : Type 0} → ℤ → List A → List A
limited (pos zero) xs = xs
limited (pos (suc n)) xs = take (suc n) xs
limited _ xs = xs

-- The cells of a result.
abbrev pub result_cells : UrlText → JobResult → List Cell
result_cells urls r =
    number r.row_number
    ∷ word r.build_id
    ∷ word (parse_barcode_urls urls r.barcode_urls).0
    ∷ word (parse_barcode_urls urls r.barcode_urls).1
    ∷ word r.error_code
    ∷ word r.error_message
    ∷ []

module _ (urls : UrlText) (x : Xlsx)
    (writes : (row : ℕ) (line : List Cell) → x.set_row row line ≡ none) where
  write_all :
      (limit : ℤ) (i row : ℕ) (sheet : List Line) (items : List JobResult)
      → ltb_ℤ (pos 0) limit ≡ false
      → download_rows urls x limit i row sheet items
        ≡ written (sheet ++ numbered row (map (result_cells urls) items))
  unfolding download_rows past_limit
  write_all limit i row sheet [] h = ground (arith, append-nil sheet)
  write_all limit i row sheet (a ∷ rest) h = ground (
    arith,
    h,
    writes row (result_cells urls a),
    write_all limit (suc i) (suc row) (sheet ++ (row, result_cells urls a) ∷ []) rest h,
    append_assoc sheet ((row, result_cells urls a) ∷ [])
        (numbered (suc row) (map (result_cells urls) rest)),
  )

  write_first :
      (n l i row : ℕ) (sheet : List Line) (items : List JobResult)
      → 1 ≤ l
      → l ≡ i + n
      → download_rows urls x (pos l) i row sheet items
        ≡ written (sheet ++ numbered row (map (result_cells urls) (take n items)))
  unfolding download_rows past_limit
  write_first zero l i row sheet [] h e = ground (arith, append-nil sheet)
  write_first zero l i row sheet (a ∷ rest) h e = ground (arith, append-nil sheet)
  write_first (suc n) l i row sheet [] h e = ground (arith, append-nil sheet)
  write_first (suc n) l i row sheet (a ∷ rest) h e = ground (
    arith,
    writes row (result_cells urls a),
    write_first n l (suc i) (suc row) (sheet ++ (row, result_cells urls a) ∷ []) rest h
        (omega (arith, e)),
    append_assoc sheet ((row, result_cells urls a) ∷ [])
        (numbered (suc row) (map (result_cells urls) (take n rest))),
  )

  pub download_rows_lem :
      (limit : ℤ) (row : ℕ) (sheet : List Line) (items : List JobResult)
      → download_rows urls x limit 0 row sheet items
        ≡ written (sheet ++ numbered row (map (result_cells urls) (limited limit items)))
  download_rows_lem (pos zero) row sheet items =
      write_all (pos zero) 0 row sheet items (ground arith)
  download_rows_lem (pos (suc n)) row sheet items =
      write_first (suc n) (suc n) 0 row sheet items (omega arith) (omega arith)
  download_rows_lem (negsuc n) row sheet items =
      write_all (negsuc n) 0 row sheet items (ground arith)

-- The rows of an export and those of a download: the same ones, or both broken.
abbrev pub SameRows : Written → Written → Type 0
SameRows (written lines) (written sent) = lines ≡ sent
SameRows (broken e) (broken message) = Unit {0}
SameRows _ _ = ⊥

pub export_rows-download_rows :
    (urls : UrlText) (x : Xlsx) (limit : ℤ) (i row : ℕ) (sheet : List Line) (items : List JobResult)
    → SameRows
        (export_rows urls x limit i row sheet items)
        (download_rows urls x limit i row sheet items)
unfolding export_rows download_rows
export_rows-download_rows urls x limit i row sheet [] = refl
export_rows-download_rows urls x limit i row sheet (a ∷ rest) =
    elim (Bool-cases (past_limit limit i)) [
      | inl past ↦ rw past refl
      | inr within ↦ elim (Option-cases (x.set_row row (result_cells urls a))) [
        | inl takes ↦
            rw (within, takes)
              (export_rows-download_rows urls x limit (suc i) (suc row)
                (sheet ++ (row, result_cells urls a) ∷ []) rest)
        | inr (e, fails) ↦ rw (within, fails) tt
      ]
    ]
