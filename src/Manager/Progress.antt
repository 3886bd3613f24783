-- ===== src/Manager/Progress.antt =====
-- `OnJobStatusChange`: the counters of the loop, and the batch that it stores.
use bulk.Base.{
  ℕ, suc, ◌+◌, ◌-◌, ◌≤◌, String, ◌≡◌, ◌≢◌, Bool, true, false, ◌&&◌, List, [], ◌∷◌, map, length,
  none, some, arith, if◌then◌else◌, ◌==◌,
}
use bulk.Base.Int.{pos}
use bulk.Domain.{Batch, Job, BatchStatus, JobStatus}
use bulk.World.{World, Env}
use bulk.Postgres.Tables.{jobs_of}
use bulk.Postgres.Convert.{job_to_domain}
use bulk.Postgres.Calls.{get_jobs_up, ticked}
use bulk.Postgres.RoundTrip.{stored, saved_over, get_batch-stored, stored-id, stored-completed_at}
use bulk.Manager.{
  BatchManager, Tally, count_job, tally_from, tally, progressed, on_job_status_change,
  save_and_publish, status_of,
}
use bulk.Manager.Saves.{save_and_publish-stored}

-- The jobs that a read of the batch `k` would list.
abbrev pub listed : String → World → List Job
listed k w = map job_to_domain (jobs_of k w.jobs)

-- A job that has come to an end: completed, refunded or failed.
abbrev pub is_settled : JobStatus → Bool
is_settled JobStatus.completed = true
is_settled JobStatus.refunded = true
is_settled JobStatus.failed = true
is_settled _ = false

abbrev pub is_failed : JobStatus → Bool
is_failed JobStatus.failed = true
is_failed _ = false

-- How many jobs have a status that passes the test.
abbrev pub count_jobs : (JobStatus → Bool) → List Job → ℕ
count_jobs p [] = 0
count_jobs p (j ∷ js) = (if p j.status then 1 else 0) + count_jobs p js

abbrev pub all_settled : List Job → Bool
all_settled [] = true
all_settled (j ∷ js) = is_settled j.status && all_settled js

count_job_lem :
    (s : JobStatus) (t : Tally)
    → count_job s t ≡ record {
      pending = t.pending + (if is_settled s then 0 else 1);
      completed = t.completed + (if is_settled s then 1 else 0);
      failed = t.failed + (if is_failed s then 1 else 0);
    }
count_job_lem JobStatus.pending t = ground arith
count_job_lem _ t = ground arith

tally_from_lem :
    (t : Tally) (js : List Job)
    → ((tally_from t js).pending + count_jobs is_settled js ≡ t.pending + length js)
      × ((tally_from t js).completed ≡ t.completed + count_jobs is_settled js)
      × ((tally_from t js).failed ≡ t.failed + count_jobs is_failed js)
unfolding tally_from
tally_from_lem t [] = omega arith
tally_from_lem t (j ∷ js) =
    ground (arith, count_job_lem j.status t, tally_from_lem (count_job j.status t) js)

-- The counters of the loop count what they say: the settled jobs, the failed ones among them, and
-- the rest of the jobs as pending.
pub tally_lem :
    (js : List Job)
    → ((tally js).pending + count_jobs is_settled js ≡ length js)
      × ((tally js).completed ≡ count_jobs is_settled js)
      × ((tally js).failed ≡ count_jobs is_failed js)
unfolding tally
tally_lem js = omega (arith, tally_from_lem (record { pending = 0; completed = 0; failed = 0 }) js)

all_settled_count :
    (js : List Job)
    → (count_jobs is_settled js ≤ length js)
      × (all_settled js ≡ (count_jobs is_settled js == length js))
all_settled_count [] = ground arith
all_settled_count (j ∷ js) = ground (arith, all_settled_count js)

-- The batch that a change of a job's status should leave, `now` being the time of the change.
abbrev pub progress_of : Batch → List Job → ℕ → Batch
progress_of b js now = record b {
  completed_count = pos (count_jobs is_settled js);
  failed_count = pos (count_jobs is_failed js);
  status = if all_settled js then BatchStatus.completed else BatchStatus.processing;
  completed_at = if all_settled js then some now else b.completed_at;
}

pub progressed-tally :
    (b : Batch) (js : List Job) (now : ℕ) → progressed b (tally js) now ≡ progress_of b js now
unfolding progressed
progressed-tally b js now = ground (arith, tally_lem js, all_settled_count js)

-- After a change of a job's status, with a store that answers and a clock that runs, the batch is
-- stored with the counts of its settled and its failed jobs, and as completed if every one of its
-- jobs is settled and as processing otherwise; it gets the time of the change in the first case only.
pub on_job_status_change-stored :
    (env : Env) (m : BatchManager) (w : World) (k : String) (b : Batch) (j : Job) (js : List Job)
    → ((n : ℕ) → env.store_fault n ≡ none)
    → ((n : ℕ) → env.now n ≢ 0)
    → m.batch_repo ≡ true
    → m.job_repo ≡ true
    → stored k w ≡ some b
    → listed k w ≡ j ∷ js
    → stored k (on_job_status_change env m k w).1
      ≡ some (saved_over b (progress_of b (j ∷ js) (env.now (suc (suc w.calls)))))
unfolding on_job_status_change
on_job_status_change-stored env m w k b j js up clock hb hj s l = ground (
  arith,
  get_jobs_up env w (up w.calls) k,
  get_batch-stored env (ticked w) k b (up _) s,
  progressed-tally b (j ∷ js) (env.now (suc (suc w.calls))),
  saved,
)
  where
    now : ℕ
    now = env.now (suc (suc w.calls))

    saved :
        stored k (save_and_publish env m (progress_of b (j ∷ js) now) (ticked (ticked w))).1
        ≡ some (saved_over b (progress_of b (j ∷ js) now))
    saved =
        save_and_publish-stored env m (ticked (ticked w)) (progress_of b (j ∷ js) now) k b (up _)
          (ground (arith, clock (suc (suc w.calls)), stored-completed_at k w b s))
          (stored-id k w b s) s

-- The event of such a change counts the failed jobs twice, among the completed and by themselves:
-- for a batch of as many rows as jobs, it shows as pending the unsettled jobs less the failed ones,
-- and 0 where there are more failed than unsettled jobs.
pub status_of-progressed :
    (b : Batch) (js : List Job) (now : ℕ)
    → b.total_rows ≡ pos (length js)
    → (status_of (progressed b (tally js) now)).pending
      ≡ pos (length js - count_jobs is_settled js - count_jobs is_failed js)
unfolding status_of
status_of-progressed b js now h = ground (arith, progressed-tally b js now, all_settled_count js)
