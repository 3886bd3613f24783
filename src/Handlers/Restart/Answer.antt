-- ===== src/Handlers/Restart/Answer.antt =====
-- What a restart does, and what it answers.
use bulk.Base.{
  ℕ, suc, ◌+◌, ◌-◌, String, ◌≡◌, refl, Bool, true, List, [], ◌∷◌, map, length, Option, none, some,
  arith, ap, inl, inr, Bool-cases, length-map, select,
}
use bulk.Domain.{Job, JobStatus, Batch}
use bulk.World.{World, Env, job_event}
use bulk.Postgres.Tables.{jobs_of, update_job}
use bulk.Postgres.Convert.{job_to_domain}
use bulk.Postgres.Calls.{ticked, get_jobs_up, update_status_up}
use bulk.Postgres.Repositories.{get_jobs, get_batch, update_status, with_status}
use bulk.Postgres.RoundTrip.{stored, get_batch-stored}
use bulk.Postgres.Sweep.{Distinct}
use bulk.Postgres.Marked.{marked, mark_rows, jobs_of-mark_rows, mark_rows-marked}
use bulk.Outside.{publish}
use bulk.Handlers.Told.{tell_manager-jobs}
use bulk.Manager.Progress.{listed}
use bulk.Confirm.Steps.{sent_jobs, push_all}
use bulk.Handlers.Reply.{reply, Deps, bulk_job_topic, require_batch}
use bulk.Handlers.Restart.{
  RestartRequest, RestartReply, skip_one, restart_one, restart_event, is_failed, restart_job,
  restart_jobs, restart_batch, handle_admin_restart_batch, send_restart,
}

module _ (env : Env) (d : Deps) where
  restart_job-counts :
      (c : RestartReply) (j : Job) (w : World)
      → let r = (restart_job env d c j w).0 in
        r.restarted + r.skipped ≡ suc (c.restarted + c.skipped)
  unfolding restart_job send_restart update_status
  restart_job-counts c j w = ground arith

  restart_jobs-counts :
      (c : RestartReply) (js : List Job) (w : World)
      → let r = (restart_jobs env d c js w).0 in
        r.restarted + r.skipped ≡ c.restarted + c.skipped + length js
  unfolding restart_jobs
  restart_jobs-counts c [] w = omega arith
  restart_jobs-counts c (j ∷ js) w = elim (Bool-cases (is_failed j.status)) [
    | inl failed ↦ rw failed (
        let r = restart_job env d c j w in
        omega (arith, restart_job-counts c j w, restart_jobs-counts r.0 js r.1))
    | inr not_failed ↦ rw not_failed (omega (arith, restart_jobs-counts (skip_one c) js w))
  ]

  restart_batch-counts :
      (k : String) (w : World) (status : ℕ) (c : RestartReply)
      → (restart_batch env d k w).0 ≡ reply status c
      → c.restarted + c.skipped ≡ length (jobs_of k w.jobs)
  unfolding restart_batch get_jobs
  restart_batch-counts k w status c h = ground (
    arith,
    restart_jobs-counts (record { restarted = 0; skipped = 0 }) (listed k w) (ticked w),
    length-map (jobs_of k w.jobs) job_to_domain,
  )

-- A restart that is answered with counts has counted each job of the batch once, as restarted or as
-- skipped, whatever fails.
pub handle_admin_restart_batch-counts :
    (env : Env) (deps : Option Deps) (w : World) (k : String) (body : Option RestartRequest)
    (status : ℕ) (c : RestartReply)
    → (handle_admin_restart_batch env deps k body w).0 ≡ reply status c
    → c.restarted + c.skipped ≡ length (jobs_of k w.jobs)
unfolding handle_admin_restart_batch require_batch get_batch
handle_admin_restart_batch-counts env deps w k none status c h = ground arith
handle_admin_restart_batch-counts env none w k (some req) status c h = ground arith
handle_admin_restart_batch-counts env (some d) w k (some req) status c h =
    ground (arith, restart_batch-counts env d k (ticked w) status c)

module _ (env : Env) (d : Deps) (up : (n : ℕ) → env.store_fault n ≡ none)
    (sends : (n : ℕ) → env.publish_fault n ≡ none) (hp : d.producer ≡ true) where
  -- The state after a failed job was restarted.
  abbrev after_restart : Job → World → World
  after_restart j w =
      let w1 = (publish env (bulk_job_topic d) (job_event (restart_event j)) w).1 in
      record w1 {
        calls = suc w1.calls;
        jobs = update_job j.id (with_status JobStatus.queued) w1.jobs;
      }

  restart_job_up :
      (c : RestartReply) (j : Job) (w : World)
      → restart_job env d c j w ≡ (restart_one c, after_restart j w)
  unfolding restart_job send_restart
  restart_job_up c j w =
      let w1 = (publish env (bulk_job_topic d) (job_event (restart_event j)) w).1 in
      ground (arith, sends w.calls, update_status_up env w1 (up _) j.id JobStatus.queued)

  restart_jobs_failed :
      (c : RestartReply) (j : Job) (js : List Job) (w : World)
      → is_failed j.status ≡ true
      → restart_jobs env d c (j ∷ js) w ≡ restart_jobs env d (restart_one c) js (after_restart j w)
  unfolding restart_jobs
  restart_jobs_failed c j js w failed =
      rw failed (ap (λ r. restart_jobs env d r.0 js r.1) (restart_job_up c j w))

  after_restart-sent_jobs :
      (j : Job) (w : World) → sent_jobs (after_restart j w).log ≡ j.id ∷ sent_jobs w.log
  unfolding restart_event
  after_restart-sent_jobs j w = ground (arith, sends w.calls)

  restart_jobs_up :
      (c : RestartReply) (js : List Job) (w : World)
      → let r = restart_jobs env d c js w in
        let failed = select (λ j. is_failed j.status) js in
        (r.0.restarted ≡ c.restarted + length failed)
        × (r.1.jobs ≡ mark_rows is_failed JobStatus.queued js w.jobs)
        × (sent_jobs r.1.log ≡ push_all (map (λ j. j.id) failed) (sent_jobs w.log))
  unfolding restart_jobs
  restart_jobs_up c [] w = (omega arith, refl, refl)
  restart_jobs_up c (j ∷ js) w = elim (Bool-cases (is_failed j.status)) [
    | inl failed ↦ rw (restart_jobs_failed c j js w failed) (
        ground (
          arith,
          failed,
          after_restart-sent_jobs j w,
          restart_jobs_up (restart_one c) js (after_restart j w),
        ))
    | inr not_failed ↦ rw not_failed (ground (arith, restart_jobs_up (skip_one c) js w))
  ]

  -- With a store and a Kafka that answer, a restart of a stored batch publishes its failed jobs, in
  -- their order, stores each of them as queued and leaves its other jobs as they were; the answer
  -- counts the failed jobs as restarted and the others as skipped.
  pub handle_admin_restart_batch-restarts :
      (w : World) (k : String) (b : Batch) (force : Bool)
      → d.batch_repo ≡ true
      → d.job_repo ≡ true
      → stored k w ≡ some b
      → Distinct (jobs_of k w.jobs)
      → let req : RestartRequest = record { restart_mode = "failed_only"; force = force } in
        let r = handle_admin_restart_batch env (some d) k (some req) w in
        let failed = select (λ j. is_failed j.status) (listed k w) in
        (r.0
          ≡ reply 200
              (record { restarted = length failed; skipped = length (listed k w) - length failed }))
        × (jobs_of k r.1.jobs ≡ map (marked is_failed JobStatus.queued) (jobs_of k w.jobs))
        × (sent_jobs r.1.log ≡ push_all (map (λ j. j.id) failed) (sent_jobs w.log))
  unfolding handle_admin_restart_batch require_batch restart_batch
  handle_admin_restart_batch-restarts w k b force hb hj s dis =
      let start : RestartReply = record { restarted = 0; skipped = 0 } in
      let w2 = ticked (ticked w) in
      ground (
        arith,
        get_batch-stored env w k b (up _) s,
        get_jobs_up env (ticked w) (up _) k,
        restart_jobs_up start (listed k w) w2,
        restart_jobs-counts env d start (listed k w) w2,
        tell_manager-jobs env d k (restart_jobs env d start (listed k w) w2).1,
        jobs_of-mark_rows is_failed JobStatus.queued k (listed k w) w.jobs,
        mark_rows-marked is_failed JobStatus.queued (jobs_of k w.jobs) dis,
      )
