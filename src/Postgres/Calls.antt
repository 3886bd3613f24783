-- ===== src/Postgres/Calls.antt =====
-- Each statement by the answer that the store gives: the result and the state after it.
use bulk.Base.{Option-cases, ◌⊎◌, inl, inr, suc, String, List, ◌≡◌, map, Option, none, some, arith}
use bulk.Domain.{Batch, JobStatus, JobResult}
use bulk.World.{World, Env, Error, ok, err, no_rows}
use bulk.World.Rows.{BatchRow}
use bulk.Postgres.Tables.{find_batch, update_batch, jobs_of, update_job}
use bulk.Postgres.Convert.{
  to_postgres, to_domain, scan_batch, update_columns, job_to_domain, to_port,
}
use bulk.Postgres.Repositories.{
  get_batch, save_batch, get_jobs, get_results, update_status, update_billing_transaction_id,
  with_status, with_transaction,
}

-- The state after a call that changed nothing in the tables.
abbrev pub ticked : World → World
ticked w = record w { calls = suc w.calls }

-- The results of a batch.
abbrev pub results_of : String → World → List JobResult
results_of k w = map to_port (jobs_of k w.jobs)

module _ (env : Env) (w : World) (up : env.store_fault w.calls ≡ none) where
  pub get_batch_found :
      (k : String) (r : BatchRow)
      → find_batch k w.batches ≡ some r
      → get_batch env k w ≡ (ok (to_domain (scan_batch r)), ticked w)
  unfolding get_batch
  get_batch_found k r e = ground arith

  pub get_batch_missing :
      (k : String) → find_batch k w.batches ≡ none → get_batch env k w ≡ (err no_rows, ticked w)
  unfolding get_batch
  get_batch_missing k e = ground arith

  pub save_batch_up :
      (b : Batch)
      → save_batch env b w ≡ (
        ok tt,
        record w {
          calls = suc w.calls;
          batches = update_batch b.id (update_columns (to_postgres b)) w.batches;
        },
      )
  unfolding save_batch
  save_batch_up b = ground arith

  pub get_jobs_up :
      (b : String) → get_jobs env b w ≡ (ok (map job_to_domain (jobs_of b w.jobs)), ticked w)
  unfolding get_jobs
  get_jobs_up b = ground arith

  pub get_results_up : (b : String) → get_results env b w ≡ (ok (results_of b w), ticked w)
  unfolding get_results
  get_results_up b = ground arith

  pub update_status_up :
      (k : String) (s : JobStatus)
      → update_status env k s w
        ≡ (ok tt, record w { calls = suc w.calls; jobs = update_job k (with_status s) w.jobs })
  unfolding update_status
  update_status_up k s = ground arith

  pub update_billing_transaction_id_up :
      (k : String) (tx : Option String)
      → update_billing_transaction_id env k tx w ≡ (
        ok tt,
        record w { calls = suc w.calls; jobs = update_job k (with_transaction tx) w.jobs },
      )
  unfolding update_billing_transaction_id
  update_billing_transaction_id_up k tx = ground arith

module _ (env : Env) (w : World) (e : Error) (down : env.store_fault w.calls ≡ some e) where
  pub get_batch_down : (k : String) → get_batch env k w ≡ (err e, ticked w)
  unfolding get_batch
  get_batch_down k = ground arith

  pub save_batch_down : (b : Batch) → save_batch env b w ≡ (err e, ticked w)
  unfolding save_batch
  save_batch_down b = ground arith

  pub get_jobs_down : (b : String) → get_jobs env b w ≡ (err e, ticked w)
  unfolding get_jobs
  get_jobs_down b = ground arith

pub get_results-cases :
    (env : Env) (w : World) (b : String)
    → (get_results env b w ≡ (ok (results_of b w), ticked w))
      ⊎ ((e : Error) × (get_results env b w ≡ (err e, ticked w)))
unfolding get_results
get_results-cases env w b = elim (Option-cases (env.store_fault w.calls)) [
  | inl up ↦ inl (get_results_up env w up b)
  | inr (e, down) ↦ inr (e, ground (arith, down))
]
