-- ===== src/Sheets.antt =====
-- The file of an export: `ExportResultsXLS` of internal/usecase/bulk/service.go. What excelize answers is
-- a parameter; a file is the rows that were written, each with its number.
use bulk.Base.{
  ℕ, suc, String, Bool, ◌&&◌, not, List, [], ◌∷◌, ◌++◌, Option, none, some, if◌then◌else◌,
}
use bulk.Base.Int.{ℤ, pos, ltb_ℤ}
use bulk.Domain.{JobResult}
use bulk.World.{Env, Action, Result, ok, err, outside, pure, from_result, ◌>>=◌}
use bulk.Barcode.{UrlText, parse_barcode_urls}
use bulk.Confirm.{Service}
use bulk.Postgres.Repositories.{get_results}

pub data Cell : Type 0 where
  number : ℤ → Cell
  word : String → Cell

abbrev pub Line : Type 0
Line = ℕ × List Cell

-- How the writing of a file to a client's connection ends: it is sent, it fails before a byte is sent,
-- or it breaks off after the header of the answer.
pub data Sent : Type 0 where
  delivered refused cut_off : Sent

-- The errors of excelize: of a new sheet, of its stream writer, of the writing of a row, of the end, and
-- of the writing of the file into a buffer, and to a connection.
pub record Xlsx : Type 0 where
  pub new_sheet : String → Option String
  pub new_stream_writer : String → Option String
  pub set_row : ℕ → List Cell → Option String
  pub flush : Option String
  pub write : Option String
  pub send : Sent

-- `limit > 0 && i >= limit`
unfoldable pub past_limit : ℤ → ℕ → Bool
past_limit limit i = ltb_ℤ (pos 0) limit && not (ltb_ℤ (pos i) limit)

-- What is written of the rows, or the error of the row that failed.
pub data Written : Type 0 where
  written : List Line → Written
  broken : String → Written

abbrev pub result_headers : List Cell
result_headers =
    word "row"
    ∷ word "buildId"
    ∷ word "pdf417_url"
    ∷ word "code128_url"
    ∷ word "error_code"
    ∷ word "error_message"
    ∷ []

-- The loop of `ExportResultsXLS` from index `i` and row number `row` on, after the rows `sheet`.
unfoldable pub export_rows : UrlText → Xlsx → ℤ → ℕ → ℕ → List Line → List JobResult → Written
unfolding past_limit
export_rows urls x limit i row sheet [] = written sheet
export_rows urls x limit i row sheet (res ∷ rest) =
    if past_limit limit i
    then written sheet
    else (let (pdf, code128) = parse_barcode_urls urls res.barcode_urls in
        let vals =
          number res.row_number
          ∷ word res.build_id
          ∷ word pdf
          ∷ word code128
          ∷ word res.error_code
          ∷ word res.error_message
          ∷ [] in
        elim (x.set_row row vals) [
          | some e ↦ broken e
          | none ↦ export_rows urls x limit (suc i) (suc row) (sheet ++ (row, vals) ∷ []) rest
        ])

-- `if err := …; err != nil { return nil, err }`
abbrev pub or_err : {A : Type 0} → Option String → Result A → Result A
or_err none next = next
or_err (some e) next = err (outside e)

-- `ExportResultsXLS` once the results are read, with what its loop has written after the headers.
unfoldable pub results_xlsx : Xlsx → Written → Result (Option (List Line))
results_xlsx x rows = or_err (x.new_sheet "Results") (
    or_err (x.new_stream_writer "Results") (
      or_err (x.set_row 1 result_headers) (elim rows [
        | broken e ↦ err (outside e)
        | written lines ↦ or_err x.flush (or_err x.write (ok (some lines)))
      ])))

-- `ExportResultsXLS`; `none` is no file.
unfoldable pub export_results_xls :
    Env → UrlText → Xlsx → Service → String → ℤ → Action (Option (List Line))
unfolding export_rows results_xlsx
export_results_xls env urls x s k limit = if not s.job_repo then pure none else (do
  results ← get_results env k
  from_result (results_xlsx x (export_rows urls x limit 0 2 ((1, result_headers) ∷ []) results)))
