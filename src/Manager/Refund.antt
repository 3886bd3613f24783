-- ===== src/Manager/Refund.antt =====
-- What `SetCancelled` does to the jobs once billing has accepted the refund.
use bulk.Base.{ℕ, suc, String, ◌≡◌, ◌≢◌, refl, true, List, [], ◌∷◌, map, none, some, arith, eq_iff}
use bulk.Domain.{Batch, Job, JobStatus}
use bulk.World.{World, Env, ok}
use bulk.World.Rows.{JobRow}
use bulk.Postgres.Tables.{jobs_of, update_job}
use bulk.Postgres.Sweep.{Distinct}
use bulk.Postgres.Calls.{ticked, update_status_up, get_jobs_up, save_batch_up}
use bulk.Postgres.Repositories.{with_status}
use bulk.Postgres.RoundTrip.{stored, saved_over, stored-save_batch}
use bulk.Manager.{BatchManager, is_open, refund_jobs, settle_refund}
use bulk.Postgres.Marked.{marked, mark_rows, jobs_of-mark_rows, mark_rows-marked}
use bulk.Manager.Progress.{listed}

-- A row's status after the refund: one that is not yet at an end becomes refunded.
abbrev closed_status : JobStatus → JobStatus
closed_status JobStatus.completed = JobStatus.completed
closed_status JobStatus.failed = JobStatus.failed
closed_status (JobStatus.other s) = JobStatus.other s
closed_status _ = JobStatus.refunded

-- A row after the refund.
abbrev pub closed : JobRow → JobRow
closed r = record r { status = closed_status r.status }

-- The loop over the jobs, as it acts on the table.
abbrev refund_rows : List Job → List JobRow → List JobRow
refund_rows = mark_rows is_open JobStatus.refunded

refund_jobs_lem :
    (env : Env) (m : BatchManager) (js : List Job) (w : World)
    → ((n : ℕ) → env.store_fault n ≡ none)
    → ((refund_jobs env m js w).1.jobs ≡ refund_rows js w.jobs)
      × ((refund_jobs env m js w).1.batches ≡ w.batches)
      × ((refund_jobs env m js w).1.log ≡ w.log)
      × ((refund_jobs env m js w).0 ≡ ok tt)
unfolding refund_jobs
refund_jobs_lem env m [] w up = (refl, refl, refl, refl)
refund_jobs_lem env m (j ∷ js) w up = ground (
  arith,
  update_status_up env w (up w.calls) j.id JobStatus.refunded,
  refund_jobs_lem env m js w up,
  refund_jobs_lem env m js
      (record w {
        calls = suc w.calls;
        jobs = update_job j.id (with_status JobStatus.refunded) w.jobs;
      })
      up,
)

map-closed : (rows : List JobRow) → map (marked is_open JobStatus.refunded) rows ≡ map closed rows
map-closed [] = refl
map-closed (r ∷ rows) = ground (arith, map-closed rows)

module _ (env : Env) (m : BatchManager) (u : World) (k : String) (b : Batch)
    (up : (n : ℕ) → env.store_fault n ≡ none) where
  -- After an accepted refund every job of the batch that was open is refunded.
  pub settle_refund-jobs :
      Distinct (jobs_of k u.jobs)
      → m.job_repo ≡ true
      → jobs_of k (settle_refund env m k b u).1.jobs ≡ map closed (jobs_of k u.jobs)
  unfolding settle_refund
  settle_refund-jobs d hj =
      let v = (refund_jobs env m (listed k u) (ticked u)).1 in
      ground (
        arith,
        get_jobs_up env u (up u.calls) k,
        refund_jobs_lem env m (listed k u) (ticked u) up,
        save_batch_up env v (up v.calls) (record b { billing_transaction_ids = [] }),
        jobs_of-mark_rows is_open JobStatus.refunded k (listed k u) u.jobs,
        mark_rows-marked is_open JobStatus.refunded (jobs_of k u.jobs) d,
        map-closed (jobs_of k u.jobs),
      )

  pub settle_refund-stored :
      (c : Batch)
      → b.id ≡ k
      → b.completed_at ≢ some 0
      → stored k u ≡ some c
      → stored k (settle_refund env m k b u).1
        ≡ some (saved_over c (record b { billing_transaction_ids = [] }))
  unfolding settle_refund
  settle_refund-stored c e h s =
      let cleared : Batch = record b { billing_transaction_ids = [] } in
      let v = (refund_jobs env m (listed k u) (ticked u)).1 in
      ground (
        arith,
        get_jobs_up env u (up u.calls) k,
        refund_jobs_lem env m (listed k u) (ticked u) up,
        save_batch_up env v (up v.calls) cleared,
        save_batch_up env u (up u.calls) cleared,
        stored-save_batch env v cleared k (up v.calls) h,
        stored-save_batch env u cleared k (up u.calls) h,
        eq_iff b.id k,
      )
