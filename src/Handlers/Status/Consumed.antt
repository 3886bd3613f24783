-- ===== src/Handlers/Status/Consumed.antt =====
-- A result that the consumer has handled (`buildResultHandler`), as `HandleBatchStatus` shows it.
use bulk.Base.{
  ℕ, String, ◌≡◌, ◌≢◌, refl, true, false, List, [], ◌∷◌, map, none, some, str_eq, eq_iff, Any,
  select, inl, inr, if◌then◌else◌, Bool, Bool-cases, ap, ◌∙◌,
}
use bulk.Base.Int.{ℤ}
use bulk.Domain.{Batch, BulkResultEvent, Fields, JobResult, JobStatus, job_status}
use bulk.World.{World, Env}
use bulk.World.Rows.{JobRow}
use bulk.Postgres.Tables.{jobs_of, update_job, jobs_of-update_job}
use bulk.Postgres.Convert.{to_port}
use bulk.Postgres.Repositories.{result_columns}
use bulk.Postgres.RoundTrip.{stored, text_or_empty-nullable}
use bulk.Manager.{BatchManager}
use bulk.Results.{ResultHandler, handle_result, result_of}
use bulk.Results.Handled.{handle_result-stored}
use bulk.Barcode.{UrlText, as_values, url_under, parse_barcode_urls, parse_barcode_urls_lem}
use bulk.Handlers.Reply.{Reply, reply, failure, Deps, GoText}
use bulk.Handlers.Status.{
  Generated, StatusReply, status_reply, generated_of, no_error, handle_batch_status,
}
use bulk.Handlers.Status.Answer.{handle_batch_status_lem}

-- The jobs that an answer shows as successful.
abbrev pub shown_successful : Reply StatusReply → List Generated
shown_successful (reply _ r) = r.results.successful
shown_successful (failure _ _ _) = []

Any-select :
    {A B : Type 0} (P : B → Type 0) (f : A → B) (p : A → Bool) (x : A) (xs : List A)
    → Any P (map f (select p xs))
    → Any P (map f (select p (x ∷ xs)))
Any-select P f p x xs h = elim (Bool-cases (p x)) [ inl e ↦ rw e (inr h) | inr e ↦ rw e h ]

-- A job's entry that has the build and the URLs of the event.
abbrev pub Shows : ℤ → String → Fields → Generated → Type 0
Shows row build urls g =
    (g.row ≡ row)
    × (g.build_id ≡ build)
    × (g.pdf417 ≡ url_under "pdf417" "pdf417_url" urls)
    × (g.code128 ≡ url_under "code128" "code128_url" urls)

module _ (go : UrlText) (to_json : Fields → String) where
  updated-Shows :
      (st : JobStatus) (res : JobResult) (urls : Fields) (r : JobRow)
      → res.error_code ≡ ""
      → res.error_message ≡ ""
      → res.barcode_urls ≡ to_json urls
      → str_eq (to_json urls) "" ≡ false
      → go.object (to_json urls) ≡ some (as_values urls)
      → (no_error (to_port (result_columns st res r)) ≡ true)
        × Shows r.row_number res.build_id urls (generated_of go (to_port (result_columns st res r)))
  unfolding to_port result_columns generated_of
  updated-Shows st res urls r c m u h k =
      let code = text_or_empty-nullable res.error_code ∙ c in
      let message = text_or_empty-nullable res.error_message ∙ m in
      let found =
        ap (parse_barcode_urls go) (text_or_empty-nullable res.barcode_urls ∙ u)
        ∙ parse_barcode_urls_lem go to_json urls h k in
      (
        rw (code, message) refl,
        (refl, text_or_empty-nullable res.build_id, ap (λ x. x.0) found, ap (λ x. x.1) found),
      )

  -- Among rows of which one has the job's id, after the update of that job.
  update_job-Shows :
      (id : String) (row : ℤ) (st : JobStatus) (res : JobResult) (urls : Fields)
      (rows : List JobRow)
      → res.error_code ≡ ""
      → res.error_message ≡ ""
      → res.barcode_urls ≡ to_json urls
      → str_eq (to_json urls) "" ≡ false
      → go.object (to_json urls) ≡ some (as_values urls)
      → Any (λ r. (r.id ≡ id) × (r.row_number ≡ row)) rows
      → Any (Shows row res.build_id urls) (
          map
            (generated_of go)
            (select no_error (map to_port (update_job id (result_columns st res) rows))))
  unfolding update_job
  update_job-Shows id row st res urls [] c m u h k any = any
  update_job-Shows id row st res urls (r ∷ rows) c m u h k (inl (same, at)) =
      let (fine, shows) = updated-Shows st res urls r c m u h k in
      rw ((eq_iff r.id id).1 same, fine) (inl (shows.0 ∙ at, shows.1, shows.2, shows.3))
  update_job-Shows id row st res urls (r ∷ rows) c m u h k (inr any) =
      Any-select (Shows row res.build_id urls) (generated_of go) no_error
        (to_port (if str_eq r.id id then result_columns st res r else r))
        (map to_port (update_job id (result_columns st res) rows))
        (update_job-Shows id row st res urls rows c m u h k any)

-- With a store that answers and a clock that runs, once the consumer has handled a result of a job
-- of a stored batch, the status of the batch shows that job as successful, with the build and the
-- barcode URLs of the result, whatever status the result has: also one with the status failed.
pub handle_result-handle_batch_status :
    (env : Env) (go : GoText) (parse : UrlText) (to_json : Fields → String) (d : Deps)
    (h : ResultHandler) (m : BatchManager) (ev : BulkResultEvent) (w : World) (b : Batch)
    (r : JobRow) (rows : List JobRow) (urls : Fields) (row : ℤ)
    → ((n : ℕ) → env.store_fault n ≡ none)
    → ((n : ℕ) → env.now n ≢ 0)
    → d.batch_repo ≡ true
    → d.job_repo ≡ true
    → h.job_repo ≡ true
    → h.notifier ≡ some m
    → m.batch_repo ≡ true
    → m.job_repo ≡ true
    → stored ev.batch_id w ≡ some b
    → jobs_of ev.batch_id w.jobs ≡ r ∷ rows
    → Any (λ x. (x.id ≡ ev.job_id) × (x.row_number ≡ row)) (r ∷ rows)
    → ev.barcode_urls ≡ some urls
    → str_eq (to_json urls) "" ≡ false
    → parse.object (to_json urls) ≡ some (as_values urls)
    → Any (Shows row ev.build_id urls) (
        shown_successful
          (handle_batch_status env go parse d ev.batch_id (handle_result env to_json h ev w).1).0)
unfolding result_of result_columns status_reply
handle_result-handle_batch_status env go parse to_json d h m ev w b r rows urls row up clock hb hj
      hr hn mb mj s l any e nonempty reads =
    let w' = (handle_result env to_json h ev w).1 in
    let res = result_of env to_json ev in
    let st = job_status ev.status in
    let (updated, now, after) =
      handle_result-stored env to_json h up m ev w b r rows clock hr hn mb mj s l in
    let (answered, _, _, _) =
      handle_batch_status_lem env go parse d w' ev.batch_id _ up hb hj after in
    let found : jobs_of ev.batch_id w'.jobs
        ≡ update_job ev.job_id (result_columns st res) (r ∷ rows) =
      ap (jobs_of ev.batch_id) updated
      ∙ jobs_of-update_job ev.batch_id ev.job_id _ w.jobs (λ x. refl)
      ∙ ap (update_job ev.job_id (result_columns st res)) l in
    rw (answered, found)
      (update_job-Shows parse to_json ev.job_id row st res urls (r ∷ rows) refl refl (rw e refl)
        nonempty reads any)
