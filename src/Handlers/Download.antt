-- ===== src/Handlers/Download.antt =====
-- `HandleDownloadResultsXLS` and `HandleDownloadErrorsXLS`: GET /batch/{id}/results.xlsx and
-- GET /batch/{id}/errors.xlsx. The table of the validation errors is a parameter, as the database
-- orders its rows.
pub mod Rows
pub mod Answer
use Prim.Native.String.{◌++◌ as append_text}
use bulk.Base.{
  ℕ, suc, String, Bool, true, false, not, List, [], ◌∷◌, ◌++◌, Option, none, some, if◌then◌else◌,
  str_eq,
}
use bulk.Base.Int.{ℤ, pos, ltb_ℤ}
use bulk.Domain.{RowError, JobResult}
use bulk.World.{Env, ok, err}
use bulk.Barcode.{UrlText, parse_barcode_urls}
use bulk.Postgres.Repositories.{get_results, get_validation_errors}
use bulk.Sheets.{
  Cell, number, word, Line, Xlsx, Sent, Written, written, broken, past_limit, result_headers,
}
use bulk.Handlers.Reply.{Reply, reply, failure, Handler, ◌>>=◌, answer, fail, Deps, GoText}

-- A file as it is sent, named after the prefix and the batch; one that is not complete breaks off, and
-- the client has its answer's header and a part of it.
pub record Attachment : Type 0 where
  pub file_prefix : String
  pub batch_id : String
  pub sheet_name : String
  pub lines : List Line
  pub complete : Bool

-- `parseLimitParam`
pub parse_limit_param : GoText → String → ℤ
parse_limit_param go s =
    if str_eq s ""
    then pos 0
    else elim (go.atoi s) [ none ↦ pos 0 | some v ↦ if ltb_ℤ (pos 0) v then v else pos 0 ]

-- `if err != nil { apperr.WriteError(…); return }`
abbrev pub or_fail : {A : Type 0} → Option String → String → Reply A → Reply A
or_fail none message next = next
or_fail (some e) message next = failure 500 "SERVICE_ERROR" message

-- `f.Write(c.Writer)`: the error has its status only if nothing has been sent.
abbrev pub send_file : Sent → Attachment → Reply Attachment
send_file Sent.delivered a = reply 200 a
send_file Sent.refused a = failure 500 "SERVICE_ERROR" "failed to write xlsx"
send_file Sent.cut_off a = reply 200 (record a { complete = false })

-- `buildXLSXResponse`, with what its loop over the rows has written after the headers.
unfoldable pub build_xlsx_response :
    Xlsx → String → String → String → List Cell → Written → Reply Attachment
build_xlsx_response x k sheet_name prefix headers rows =
    or_fail (x.new_sheet sheet_name) "failed to create sheet" (
      or_fail (x.new_stream_writer sheet_name) "failed to create stream writer" (
        or_fail (x.set_row 1 headers) "failed to write header" (elim rows [
          | broken e ↦ failure 500 "SERVICE_ERROR" e
          | written lines ↦ or_fail x.flush "failed to flush xlsx" (
              send_file x.send (record {
                file_prefix = prefix;
                batch_id = k;
                sheet_name = sheet_name;
                lines = lines;
                complete = true;
              }))
        ])))

abbrev error_headers : List Cell
error_headers =
    word "row" ∷ word "field" ∷ word "code" ∷ word "message" ∷ word "original_value" ∷ []

abbrev row_failed : String → String
row_failed e = append_text "failed to write row: " e

-- The loop of `HandleDownloadErrorsXLS` from index `i` and row number `row` on, after the rows `sheet`.
error_rows : Xlsx → ℤ → ℕ → ℕ → List Line → List RowError → Written
unfolding past_limit
error_rows x limit i row sheet [] = written sheet
error_rows x limit i row sheet (e ∷ rest) =
    if past_limit limit i
    then written sheet
    else (let vals =
          number e.row_number
          ∷ word e.field
          ∷ word e.error_code
          ∷ word e.error_message
          ∷ word e.original_value
          ∷ [] in
        elim (x.set_row row vals) [
          | some fault ↦ broken (row_failed fault)
          | none ↦ error_rows x limit (suc i) (suc row) (sheet ++ (row, vals) ∷ []) rest
        ])

-- The loop of `HandleDownloadResultsXLS`, likewise.
pub download_rows : UrlText → Xlsx → ℤ → ℕ → ℕ → List Line → List JobResult → Written
unfolding past_limit
download_rows urls x limit i row sheet [] = written sheet
download_rows urls x limit i row sheet (res ∷ rest) =
    if past_limit limit i
    then written sheet
    else (let (pdf, code128) = parse_barcode_urls urls res.barcode_urls in
        let vals =
          number res.row_number
          ∷ word res.build_id
          ∷ word pdf
          ∷ word code128
          ∷ word res.error_code
          ∷ word res.error_message
          ∷ [] in
        elim (x.set_row row vals) [
          | some fault ↦ broken (row_failed fault)
          | none ↦ download_rows urls x limit (suc i) (suc row) (sheet ++ (row, vals) ∷ []) rest
        ])

module _ (env : Env) (go : GoText) (urls : UrlText) (x : Xlsx) where
  -- `HandleDownloadErrorsXLS`
  pub handle_download_errors_xls :
      Option (String → List RowError) → String → String → Handler Attachment
  unfolding build_xlsx_response parse_limit_param error_rows
  handle_download_errors_xls none k limit =
      fail 404 "MISSING_DEPENDENCY" "validation repo not configured"
  handle_download_errors_xls (some errors_of) k limit = do
    found ← get_validation_errors env errors_of k
    elim found [
      | err e ↦ fail 500 "SERVICE_ERROR" "failed to fetch validation errors"
      | ok errors ↦ answer (
          build_xlsx_response x k "Errors" "errors" error_headers
            (error_rows x (parse_limit_param go limit) 0 2 ((1, error_headers) ∷ []) errors))
    ]

  -- `HandleDownloadResultsXLS`
  unfoldable pub handle_download_results_xls : Deps → String → String → Handler Attachment
  unfolding build_xlsx_response parse_limit_param download_rows
  handle_download_results_xls d k limit =
      if not d.job_repo then fail 404 "MISSING_DEPENDENCY" "job repo not configured" else (do
        found ← get_results env k
        elim found [
          | err e ↦ fail 500 "SERVICE_ERROR" "failed to fetch job results"
          | ok results ↦ answer (
              build_xlsx_response x k "Results" "results" result_headers (
                download_rows urls x (parse_limit_param go limit) 0 2 ((1, result_headers) ∷ [])
                  results))
        ])
