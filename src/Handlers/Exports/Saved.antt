-- ===== src/Handlers/Exports/Saved.antt =====
-- An export from the results of its batch to its download.
use bulk.Base.{
  ℕ, String, ◌≡◌, ◌≢◌, ◌⊎◌, inl, inr, refl, true, false, [], ◌∷◌, List, subst, Option, none, some,
  arith, ltb, eq_iff,
}
use bulk.Base.Int.{pos}
use bulk.Domain.{Time}
use bulk.World.{World, Env, Error, Result, ok, err, outside, Result-cases}
use bulk.Barcode.{UrlText}
use bulk.Confirm.{Service}
use bulk.Postgres.Repositories.{get_results}
use bulk.Storage.{Minio, PathText, FileClient, save, get_file}
use bulk.Storage.Kept.{IsKeeping, IsCleaning, get_file-save}
use bulk.Sheets.{
  Xlsx, Line, Written, written, broken, export_rows, result_headers, or_err, results_xlsx,
  export_results_xls,
}
use bulk.Exporter.{
  Manager, ExportStatus, ExportResult, Outcome, enqueue, take_next, finish, settled, get,
}
use bulk.Exporter.Life.{enqueue-finish}
use bulk.Exporter.Worker.{export_name, keep_file, outcome_of, run_export}
use bulk.Handlers.Reply.{reply}
use bulk.Handlers.Exports.{
  FileStore, file_of, shown, over_minio, handle_get_export, show_export, proxy,
}
use bulk.Handlers.Exports.Ended.{ended}

-- A file, or an error.
abbrev HasFile : Result (Option (List Line)) → Type 0
HasFile r = ((lines : List Line) × (r ≡ ok (some lines))) ⊎ ((e : Error) × (r ≡ err e))

or_err-HasFile :
    (fault : Option String) (r : Result (Option (List Line))) → HasFile r → HasFile (or_err fault r)
or_err-HasFile none r h = h
or_err-HasFile (some e) r h = inr (outside e, refl)

results_xlsx-HasFile : (x : Xlsx) (rows : Written) → HasFile (results_xlsx x rows)
unfolding results_xlsx
results_xlsx-HasFile x rows = or_err-HasFile (x.new_sheet "Results") _ (
    or_err-HasFile (x.new_stream_writer "Results") _
      (or_err-HasFile (x.set_row 1 result_headers) _ (lines_of rows)))
  where
    lines_of :
        (rows : Written)
        → HasFile (elim rows [
          | broken e ↦ err (outside e)
          | written lines ↦ or_err x.flush (or_err x.write (ok (some lines)))
        ])
    lines_of (broken e) = inr (outside e, refl)
    lines_of (written lines) =
        or_err-HasFile x.flush _ (or_err-HasFile x.write _ (inl (lines, refl)))

export_results_xls-HasFile :
    (env : Env) (urls : UrlText) (x : Xlsx) (svc : Service) (id : String) (w : World)
    → svc.job_repo ≡ true
    → HasFile (export_results_xls env urls x svc id (pos 0) w).0
unfolding export_results_xls
export_results_xls-HasFile env urls x svc id w there =
    elim (Result-cases (get_results env id w).0) [
      | inl (results, read) ↦
          let rows = export_rows urls x (pos 0) 0 2 ((1, result_headers) ∷ []) results in
          let made : (export_results_xls env urls x svc id (pos 0) w).0 ≡ results_xlsx x rows =
            ground (arith, there, read) in
          rw made (results_xlsx-HasFile x rows)
      | inr (e, fails) ↦ inr (e, ground (arith, there, fails))
    ]

module _ (ttl : ℕ) (store : FileStore) (after : Manager) (id : String) (now : Time)
    (r : ExportResult) (known : get id after ≡ some r) where
  download_no_file :
      r.storage_id ≡ ""
      → handle_get_export ttl (some store) (some after) id true now ≡ reply 200 (shown r)
  unfolding handle_get_export show_export
  download_no_file none_saved = ground (arith, known, none_saved, eq_iff r.storage_id "")

  download_file :
      (content : String)
      → r.storage_id ≢ ""
      → store.open_file r.storage_id ≡ some (record { content = content; breaks_off = false })
      → handle_get_export ttl (some store) (some after) id true now ≡ reply 200 (file_of r content)
  unfolding handle_get_export show_export proxy
  download_file content named opened = ground (arith, known, opened, named, eq_iff r.storage_id "")

module _ {S : Type 0} (m : Minio S) (p : PathText) (env : Env) (urls : UrlText) (x : Xlsx)
    (encode : List Line → String) (text : Error → String) where
  -- What the run of an export ends with: the id of the file of its lines, or an error.
  run_export_cases :
      (keeps : IsKeeping m) (cleans : IsCleaning p) (svc : Service) (f : FileClient) (id : String)
      (w : World) (s : S)
      → svc.job_repo ≡ true
      → let (o, w', s') = run_export m p env urls x encode text (some svc) (some f) id w s in
        ((file : String) × (lines : List Line) × ((export_results_xls env urls x svc id (pos 0) w).0
            ≡ ok (some lines))
          × (o ≡ Outcome.stored_as file)
          × (file ≢ "")
          × (get_file m p (some f) file s'
              ≡ ok (record { content = encode lines; breaks_off = false })))
        ⊎ ((e : Error) × (o ≡ Outcome.failed_with (text e)))
  unfolding run_export keep_file outcome_of
  run_export_cases keeps cleans svc f id w s there =
      elim (export_results_xls-HasFile env urls x svc id w there) [
        | inr (e, fails) ↦ inr (e, ground (arith, fails))
        | inl (lines, made) ↦
            let attempted = save m p (some f) (export_name id) (encode lines) s in
            elim (Result-cases attempted.0) [
              | inr (e, fails) ↦ inr (e, ground (arith, made, fails))
              | inl (file, kept) ↦
                  let (named, opened) =
                    get_file-save m p (some f) (export_name id) (encode lines) file s keeps cleans
                      kept in
                  let same : attempted.1
                      ≡ (run_export m p env urls x encode text (some svc) (some f) id w s).2 =
                    ground (arith, made, kept) in
                  inl (
                    file,
                    lines,
                    made,
                    ground (arith, made, kept),
                    named,
                    subst
                        (λ t.
                          get_file m p (some f) file t
                          ≡ ok (record { content = encode lines; breaks_off = false }))
                        same opened,
                  )
            ]
      ]

  -- A MinIO that gives back what it stored under its key, and a worker that is free, with an empty queue, a
  -- service and a client of the storage: an export that is not known and that the
  -- worker takes and runs is answered, when it is downloaded, with the rows that the service has for the
  -- batch, as a file, and has ended as done, or it is shown, with the status failed and the error of the
  -- run. What fails is not fixed.
  pub handle_get_export-saved :
      IsKeeping m
      → IsCleaning p
      → (svc : Service) (f : FileClient) (ttl : ℕ) (id : String) (t₁ t₂ t₃ now : Time) (e : Manager)
        (w : World) (s : S)
      → svc.job_repo ≡ true
      → e.current ≡ none
      → e.queue ≡ []
      → ltb 0 e.capacity ≡ true
      → get id e ≡ none
      → let (o, w', s') = run_export m p env urls x encode text (some svc) (some f) id w s in
        let after = finish o t₃ (take_next t₂ (enqueue id t₁ e).1) in
        let answer =
          handle_get_export ttl (some (over_minio m p (some f) ttl s')) (some after) id true now in
        let shown_as = ended id t₁ t₂ t₃ o in
        ((lines : List Line) × ((export_results_xls env urls x svc id (pos 0) w).0
            ≡ ok (some lines))
          × (shown_as.status ≡ ExportStatus.done)
          × (answer ≡ reply 200 (file_of shown_as (encode lines))))
        ⊎ ((error : Error) × (shown_as.status ≡ ExportStatus.failed)
            × (shown_as.error ≡ text error)
            × (answer ≡ reply 200 (shown shown_as)))
  unfolding over_minio settled
  handle_get_export-saved keeps cleans svc f ttl id t₁ t₂ t₃ now e w s there idle empty room
        unknown =
      let (o, w', s') = run_export m p env urls x encode text (some svc) (some f) id w s in
      let after = finish o t₃ (take_next t₂ (enqueue id t₁ e).1) in
      let store = over_minio m p (some f) ttl s' in
      let (_, _, _, known) = enqueue-finish id t₁ t₂ t₃ o e idle empty room unknown in
      elim (run_export_cases keeps cleans svc f id w s there) [
        | inl (file, lines, made, stored, named, opened) ↦
            let saved_as : (ended id t₁ t₂ t₃ o).storage_id ≡ file = ground (arith, stored) in
            inl (
              lines,
              made,
              ground (arith, stored),
              download_file ttl store after id now (ended id t₁ t₂ t₃ o) known (encode lines)
                  (ground (arith, saved_as, named)) (ground (arith, saved_as, opened)),
            )
        | inr (error, failed) ↦ inr (
          error,
          ground (arith, failed),
          ground (arith, failed),
          download_no_file ttl store after id now (ended id t₁ t₂ t₃ o) known
              (ground (arith, failed)),
        )
      ]
