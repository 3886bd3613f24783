-- ===== src/Manager/Log.antt =====
-- What the methods that save and publish add to the log: events of the topic bulk.status and nothing
-- else, so a reading of the log that passes these over sees no change.
use bulk.Base.{String, ◌≡◌, inl, inr, List, ◌∷◌, arith}
use bulk.Domain.{Batch, Job}
use bulk.World.{
  World, Env, Event, StatusEvent, published, publish_failed, status_event, Result-cases,
}
use bulk.Postgres.Repositories.{get_batch, get_jobs, save_batch}
use bulk.Manager.Saves.{save_and_publish-jobs}
use bulk.Manager.{
  BatchManager, status_of, publish_status, save_and_publish, update_progress, on_job_status_change,
  progressed, tally,
}

module _ {A : Type 0} (read : List Event → A)
    (sent : (topic : String) (e : StatusEvent) (log : List Event)
      → read (published topic (status_event e) ∷ log) ≡ read log)
    (failed : (topic : String) (e : StatusEvent) (log : List Event)
      → read (publish_failed topic (status_event e) ∷ log) ≡ read log)
    (env : Env) (m : BatchManager) where
  publish_status-log : (b : Batch) (w : World) → read (publish_status env m b w).1.log ≡ read w.log
  unfolding publish_status
  publish_status-log b w = ground (
    arith,
    sent m.bulk_status_topic (status_of b) w.log,
    failed m.bulk_status_topic (status_of b) w.log,
  )

  save_and_publish-log :
      (b : Batch) (w : World) → read (save_and_publish env m b w).1.log ≡ read w.log
  unfolding save_and_publish save_batch
  save_and_publish-log b w = ground (arith, publish_status-log b (save_batch env b w).1)

  update_progress-log :
      (k : String) (jobs : List Job) (w : World)
      → read (update_progress env m k jobs w).1.log ≡ read w.log
  unfolding update_progress get_batch
  update_progress-log k jobs w = elim (Result-cases (get_batch env k w).0) [
    | inl (b, found) ↦
        let now = env.now (get_batch env k w).1.calls in
        ground
          (arith, found, save_and_publish-log (progressed b (tally jobs) now) (get_batch env k w).1)
    | inr (e, fails) ↦ ground (arith, fails)
  ]

  pub on_job_status_change-log :
      (k : String) (w : World) → read (on_job_status_change env m k w).1.log ≡ read w.log
  unfolding on_job_status_change get_jobs
  on_job_status_change-log k w = elim (Result-cases (get_jobs env k w).0) [
    | inl (jobs, listed) ↦ ground (arith, listed, update_progress-log k jobs (get_jobs env k w).1)
    | inr (e, fails) ↦ ground (arith, fails)
  ]

module _ (env : Env) (m : BatchManager) where
  update_progress-jobs :
      (k : String) (jobs : List Job) (w : World) → (update_progress env m k jobs w).1.jobs ≡ w.jobs
  unfolding update_progress get_batch
  update_progress-jobs k jobs w = elim (Result-cases (get_batch env k w).0) [
    | inl (b, found) ↦
        let now = env.now (get_batch env k w).1.calls in
        ground (
          arith,
          found,
          save_and_publish-jobs env m (get_batch env k w).1 (progressed b (tally jobs) now),
        )
    | inr (e, fails) ↦ ground (arith, fails)
  ]

  -- A change of a job's status writes to the table of batches only.
  pub on_job_status_change-jobs :
      (k : String) (w : World) → (on_job_status_change env m k w).1.jobs ≡ w.jobs
  unfolding on_job_status_change get_jobs
  on_job_status_change-jobs k w = elim (Result-cases (get_jobs env k w).0) [
    | inl (jobs, listed) ↦ ground (arith, listed, update_progress-jobs k jobs (get_jobs env k w).1)
    | inr (e, fails) ↦ ground (arith, fails)
  ]
