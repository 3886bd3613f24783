-- ===== src/Handlers/Download/Answer.antt =====
-- What a download of the results holds, and that it is what the export writes.
use bulk.Base.{
  ℕ, String, ◌≡◌, refl, true, List, [], ◌∷◌, map, Option, none, some, arith, Bool-cases, inl, inr,
}
use bulk.World.{World, Env, Result, ok, err, outside}
use bulk.Postgres.Calls.{ticked, get_results_up, get_results-cases, results_of}
use bulk.Barcode.{UrlText}
use bulk.Confirm.{Service}
use bulk.Sheets.{
  Cell, Line, Xlsx, Sent, Written, written, broken, export_rows, result_headers, results_xlsx,
  or_err, export_results_xls,
}
use bulk.Handlers.Download.Rows.{
  result_cells, numbered, limited, download_rows_lem, SameRows, export_rows-download_rows,
}
use bulk.Handlers.Reply.{Reply, reply, failure, Deps, GoText}
use bulk.Handlers.Download.{
  Attachment, send_file, download_rows, parse_limit_param, or_fail, build_xlsx_response,
  handle_download_results_xls,
}

abbrev pub results_file : String → List Line → Attachment
results_file k lines = record {
  file_prefix = "results";
  batch_id = k;
  sheet_name = "Results";
  lines = lines;
  complete = true;
}

-- An answer that shows what the export has made of the same results.
abbrev pub Shows : String → Result (Option (List Line)) → Reply Attachment → Type 0
Shows k (ok none) r = r ≡ failure 404 "MISSING_DEPENDENCY" "job repo not configured"
Shows k (ok (some lines)) r = r ≡ reply 200 (results_file k lines)
Shows k (err e) r = (message : String) × (r ≡ failure 500 "SERVICE_ERROR" message)

Shows-or_err :
    (k : String) (e : Result (Option (List Line))) (r : Reply Attachment) (fault : Option String)
    (message : String)
    → Shows k e r
    → Shows k (or_err fault e) (or_fail fault message r)
Shows-or_err k e r none message h = h
Shows-or_err k e r (some fault) message h = (message, refl)

results_xlsx-Shows :
    (x : Xlsx) (k : String) (made sent : Written)
    → x.write ≡ none
    → x.send ≡ Sent.delivered
    → SameRows made sent
    → Shows k
        (results_xlsx x made)
        (build_xlsx_response x k "Results" "results" result_headers sent)
unfolding results_xlsx build_xlsx_response
results_xlsx-Shows x k made sent kept stays same = Shows-or_err k _ _ (x.new_sheet "Results") _ (
    Shows-or_err k _ _ (x.new_stream_writer "Results") _
      (Shows-or_err k _ _ (x.set_row 1 result_headers) _ (shown_rows made sent same)))
  where
    shown_rows :
        (made sent : Written)
        → SameRows made sent
        → Shows k
            (elim made [
              | broken e ↦ err (outside e)
              | written lines ↦ or_err x.flush (or_err x.write (ok (some lines)))
            ])
            (elim sent [
              | broken e ↦ failure 500 "SERVICE_ERROR" e
              | written lines ↦
                  or_fail x.flush "failed to flush xlsx" (send_file x.send (results_file k lines))
            ])
    shown_rows (broken e) (broken message) same = (_, refl)
    shown_rows (written lines) (written sent) same =
        rw (kept, stays, same) (Shows-or_err k _ _ x.flush _ refl)
    shown_rows (broken e) (written sent) same = absurd same
    shown_rows (written lines) (broken message) same = absurd same

module _ (env : Env) (go : GoText) (urls : UrlText) (x : Xlsx) (d : Deps) (w : World)
    (k limit : String) where
  -- With a store that answers and a file that can be written, the download of a batch's results has the
  -- headers as its first row and under it, from row 2 on without a gap, a row for each result in the
  -- order of the jobs: for the first ones up to the limit, or for all where no limit above 0 is given.
  pub handle_download_results_xls-numbered :
      env.store_fault w.calls ≡ none
      → d.job_repo ≡ true
      → ((row : ℕ) (line : List Cell) → x.set_row row line ≡ none)
      → ((name : String) → (x.new_sheet name ≡ none) × (x.new_stream_writer name ≡ none))
      → x.flush ≡ none
      → x.send ≡ Sent.delivered
      → handle_download_results_xls env go urls x d k limit w ≡ (
        reply 200 (
            results_file k (
              (1, result_headers)
              ∷ numbered 2 (
                  map
                    (result_cells urls)
                    (limited (parse_limit_param go limit) (results_of k w))))),
        ticked w,
      )
  unfolding handle_download_results_xls build_xlsx_response
  handle_download_results_xls-numbered up hj writes opens flushed sent = ground (
    arith,
    get_results_up env w up k,
    opens "Results",
    writes 1 result_headers,
    download_rows_lem urls x writes (parse_limit_param go limit) 2 ((1, result_headers) ∷ [])
        (results_of k w),
  )

  -- Where the buffer of the export takes the file, and the client of the download takes all of it, the
  -- export of a batch and its download with the same limit agree, whatever else fails: either there is no
  -- repository for both, or both have the same rows, or both fail; and they leave the same state.
  pub export_results_xls-Shows :
      (s : Service)
      → s.job_repo ≡ d.job_repo
      → x.write ≡ none
      → x.send ≡ Sent.delivered
      → let e = export_results_xls env urls x s k (parse_limit_param go limit) w in
        let r = handle_download_results_xls env go urls x d k limit w in
        Shows k e.0 r.0 × (e.1 ≡ r.1)
  unfolding export_results_xls handle_download_results_xls
  export_results_xls-Shows s same kept stays = elim (Bool-cases d.job_repo) [
    | inr lacks ↦
        let none_made : e0 s ≡ (ok none, w) = ground (arith, same, lacks) in
        let refused : r0 ≡ (failure 404 "MISSING_DEPENDENCY" "job repo not configured", w) =
          ground (arith, lacks) in
        rw (none_made, refused) (refl, refl)
    | inl has ↦ elim (get_results-cases env w k) [
      | inl found ↦
          let made : e0 s ≡ (results_xlsx x made_rows, ticked w) =
            ground (arith, same, has, found) in
          let sent : r0
              ≡ (build_xlsx_response x k "Results" "results" result_headers sent_rows, ticked w) =
            ground (arith, has, found) in
          rw (made, sent)
            (
              results_xlsx-Shows x k made_rows sent_rows kept stays (
                  export_rows-download_rows urls x (parse_limit_param go limit) 0 2
                    ((1, result_headers) ∷ []) (results_of k w)),
              refl,
            )
      | inr (e, down) ↦
          let broke : e0 s ≡ (err e, ticked w) = ground (arith, same, has, down) in
          let refused : r0 ≡ (failure 500 "SERVICE_ERROR" "failed to fetch job results", ticked w) =
            ground (arith, has, down) in
          rw (broke, refused) ((_, refl), refl)
    ]
  ]
    where
      e0 : Service → Result (Option (List Line)) × World
      e0 t = export_results_xls env urls x t k (parse_limit_param go limit) w

      r0 : Reply Attachment × World
      r0 = handle_download_results_xls env go urls x d k limit w

      made_rows : Written
      made_rows =
          export_rows urls x (parse_limit_param go limit) 0 2 ((1, result_headers) ∷ [])
            (results_of k w)

      sent_rows : Written
      sent_rows =
          download_rows urls x (parse_limit_param go limit) 0 2 ((1, result_headers) ∷ [])
            (results_of k w)
