-- ===== src/Examples/Downloads.antt =====
-- Files of results: a download, and an export.
use bulk.Base.{◌≡◌, refl, ◌∷◌, map, none, some, ltb, if◌then◌else◌}
use bulk.Postgres.Calls.{ticked, results_of}
use bulk.Sheets.{Xlsx, Sent, result_headers, export_results_xls}
use bulk.Handlers.Download.Rows.{result_cells, numbered, limited}
use bulk.Handlers.Reply.{reply}
use bulk.Handlers.Download.{parse_limit_param, handle_download_results_xls}
use bulk.Handlers.Download.Answer.{
  results_file, Shows, handle_download_results_xls-numbered, export_results_xls-Shows,
}
use bulk.Examples.{calm, plain, service}
use bulk.Examples.Handlers.{deps, go, url_text}

-- A file that takes every row.
abbrev pub xlsx : Xlsx
xlsx = record {
  new_sheet = λ name. none;
  new_stream_writer = λ name. none;
  set_row = λ row line. none;
  flush = none;
  write = none;
  send = Sent.delivered;
}

handle_download_results_xls-numbered_example :
    handle_download_results_xls calm go url_text xlsx deps "b" "2" plain ≡ (
      reply 200 (
          results_file "b" (
            (1, result_headers)
            ∷ numbered 2 (
                map
                  (result_cells url_text)
                  (limited (parse_limit_param go "2") (results_of "b" plain))))),
      ticked plain,
    )
handle_download_results_xls-numbered_example =
    handle_download_results_xls-numbered calm go url_text xlsx deps plain "b" "2" refl refl
      (λ row line. refl) (λ name. (refl, refl)) refl refl

-- A file that fails at its third row.
abbrev full_xlsx : Xlsx
full_xlsx = record xlsx { set_row = λ row line. if ltb 2 row then some "disk full" else none }

export_results_xls-Shows_example :
    let e =
      export_results_xls calm url_text full_xlsx service "b" (parse_limit_param go "2") plain in
    let r = handle_download_results_xls calm go url_text full_xlsx deps "b" "2" plain in
    Shows "b" e.0 r.0 × (e.1 ≡ r.1)
export_results_xls-Shows_example =
    export_results_xls-Shows calm go url_text full_xlsx deps plain "b" "2" service refl refl refl
