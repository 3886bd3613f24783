-- ===== src/Postgres/Repositories.antt =====
-- The two repositories. A missing row of `GetByID` is the error `sql.ErrNoRows`, never a nil batch.
use bulk.Base.{String, Bool, List, [], ◌∷◌, ◌++◌, map, Option, none, some, if◌then◌else◌}
use bulk.Domain.{Batch, Job, JobStatus, JobResult, RowError}
use bulk.World.{
  World, Env, Action, Result, from_result, no_rows, outside, ok, err, pure, raise, gets, modify,
  faulty, ◌>>=◌, ◌>>◌,
}
use bulk.World.Rows.{BatchRow, JobRow}
use bulk.Postgres.Tables.{find_batch, update_batch, jobs_of, find_job, update_job}
use bulk.Postgres.Convert.{
  nullable, to_postgres, to_domain, scan_batch, insert_columns, update_columns, job_to_domain,
  job_columns, to_port,
}

abbrev or_no_rows : Option BatchRow → Result Batch
or_no_rows none = err no_rows
or_no_rows (some r) = ok (to_domain (scan_batch r))

abbrev has_batch : String → World → Bool
has_batch k w = elim (find_batch k w.batches) [ none ↦ Bool.false | some _ ↦ Bool.true ]

abbrev has_job : String → World → Bool
has_job k w = elim (find_job k w.jobs) [ none ↦ Bool.false | some _ ↦ Bool.true ]

-- The columns that `UpdateStatusWithResult` sets; empty texts become NULL.
unfoldable pub result_columns : JobStatus → JobResult → JobRow → JobRow
unfolding nullable
result_columns status res r = record r {
  status = status;
  build_id = nullable res.build_id;
  barcode_urls = nullable res.barcode_urls;
  error_code = nullable res.error_code;
  error_message = nullable res.error_message;
  billing_transaction_id = nullable res.billing_transaction_id;
}

abbrev pub with_status : JobStatus → JobRow → JobRow
with_status status r = record r { status = status }

abbrev pub with_transaction : Option String → JobRow → JobRow
with_transaction tx r = record r { billing_transaction_id = tx }

module _ (env : Env) where
  -- `BatchRepository.GetByID`
  unfoldable pub get_batch : String → Action Batch
  get_batch k = do
    faulty env.store_fault
    found ← gets (λ w. find_batch k w.batches)
    from_result (or_no_rows found)

  -- `BatchRepository.Create`; the key is the table's primary key.
  unfoldable pub create_batch : Batch → Action (Unit {0})
  create_batch b = do
    n ← gets (λ w. w.calls)
    faulty env.store_fault
    taken ← gets (has_batch b.id)
    if taken
        then raise (outside "duplicate key")
        else modify
            λ w. record w { batches = w.batches ++ insert_columns (to_postgres b) (env.now n) ∷ [] }

  -- `BatchRepository.Update`; no row with the key is no error.
  unfoldable pub save_batch : Batch → Action (Unit {0})
  save_batch b = do
    faulty env.store_fault
    modify λ w. record w { batches = update_batch b.id (update_columns (to_postgres b)) w.batches }

  -- `JobRepository.Create`; `batch_id` references the table of batches.
  unfoldable pub create_job : Job → Action (Unit {0})
  create_job j = do
    faulty env.store_fault
    taken ← gets (has_job j.id)
    known ← gets (has_batch j.batch_id)
    if taken
        then raise (outside "duplicate key")
        else if known
        then (modify λ w. record w { jobs = w.jobs ++ job_columns j ∷ [] })
        else raise (outside "foreign key")

  -- `JobRepository.GetByBatch`
  unfoldable pub get_jobs : String → Action (List Job)
  get_jobs b = do
    faulty env.store_fault
    rows ← gets (λ w. jobs_of b w.jobs)
    pure (map job_to_domain rows)

  -- `JobRepository.GetResultsByBatch`
  unfoldable pub get_results : String → Action (List JobResult)
  get_results b = do
    faulty env.store_fault
    rows ← gets (λ w. jobs_of b w.jobs)
    pure (map to_port rows)

  -- `ValidationRepository.GetValidationErrors`, given the rows of the batch in their order
  unfoldable pub get_validation_errors : (String → List RowError) → String → Action (List RowError)
  get_validation_errors errors_of b = do faulty env.store_fault; pure (errors_of b)

  -- `JobRepository.UpdateStatus`
  unfoldable pub update_status : String → JobStatus → Action (Unit {0})
  update_status k status = do
    faulty env.store_fault
    modify λ w. record w { jobs = update_job k (with_status status) w.jobs }

  -- `JobRepository.UpdateBillingTransactionID`
  unfoldable pub update_billing_transaction_id : String → Option String → Action (Unit {0})
  update_billing_transaction_id k tx = do
    faulty env.store_fault
    modify λ w. record w { jobs = update_job k (with_transaction tx) w.jobs }

  -- `JobRepository.UpdateStatusWithResult`
  unfoldable pub update_status_with_result : String → JobStatus → JobResult → Action (Unit {0})
  update_status_with_result k status res = do
    faulty env.store_fault
    modify λ w. record w { jobs = update_job k (result_columns status res) w.jobs }
