-- ===== src/Handlers/Confirm/Answer.antt =====
-- What the handler of a confirmation does where there is no service.
use bulk.Base.{
  ℕ, suc, ◌+◌, ◌-◌, ◌*◌, ◌≤◌, String, ◌≡◌, ◌≢◌, refl, true, false, List, [], ◌∷◌, map, length,
  length-map, Option, none, some, arith, if◌then◌else◌, sym, inl, inr, Bool-cases, min,
}
use bulk.Base.Int.{ℤ, pos, pos_part, ltb_ℤ}
use bulk.Domain.{Job, JobStatus}
use bulk.World.{World, Env, ok, job_event}
use bulk.World.Rows.{JobRow}
use bulk.Postgres.Tables.{jobs_of, update_job}
use bulk.Postgres.Convert.{job_to_domain}
use bulk.Postgres.Calls.{ticked, get_jobs_up, update_status_up}
use bulk.Postgres.Repositories.{with_status}
use bulk.Postgres.Sweep.{
  listed_ids, Distinct, ids, sweep, map_from, sweep-Distinct, jobs_of-sweep, sweep_idle,
}
use bulk.Outside.{publish, block_batch}
use bulk.Handlers.Told.{tell_manager, tell_manager-jobs}
use bulk.Confirm.Steps.{sent_jobs}
use bulk.Handlers.Reply.{reply, Deps, bulk_job_topic}
use bulk.Handlers.Confirm.{
  ConfirmRequest, accepted, bare_event, queue_jobs, queue_batch, handle_confirm, known_action,
  wanted_count, confirm_count, confirm_bare,
}

-- What the loop does to row number i.
abbrev pub queue_first : ℤ → ℕ → JobRow → JobRow
queue_first count i r = if ltb_ℤ (pos i) count then with_status JobStatus.queued r else r

queue_first-id : (count : ℤ) (i : ℕ) (r : JobRow) → (queue_first count i r).id ≡ r.id
queue_first-id count i r = ground arith

queue_first-batch_id :
    (count : ℤ) (i : ℕ) (r : JobRow) → (queue_first count i r).batch_id ≡ r.batch_id
queue_first-batch_id count i r = ground arith

stays_past :
    (i j : ℕ) (count : ℤ) → ltb_ℤ (pos i) count ≡ false → i ≤ j → ltb_ℤ (pos j) count ≡ false
stays_past i j count h le = ground arith

steps :
    (i : ℕ) (count : ℤ)
    → ltb_ℤ (pos i) count ≡ true
    → pos_part count - i ≡ suc (pos_part count - suc i)
steps i count h = ground arith

none_left : (i : ℕ) (count : ℤ) → ltb_ℤ (pos i) count ≡ false → pos_part count - i ≡ 0
none_left i count h = ground arith

module _ (env : Env) (d : Deps) (up : (n : ℕ) → env.store_fault n ≡ none) where
  -- The state after one round.
  abbrev after_round : Job → World → World
  after_round j w =
      let w1 = (publish env (bulk_job_topic d) (job_event (bare_event j)) w).1 in
      record w1 {
        calls = suc w1.calls;
        jobs = update_job j.id (with_status JobStatus.queued) w1.jobs;
      }

  queue_jobs_more :
      (count : ℤ) (i q : ℕ) (j : Job) (js : List Job) (w : World)
      → ltb_ℤ (pos i) count ≡ true
      → queue_jobs env d count i q (j ∷ js) w
        ≡ queue_jobs env d count (suc i) (suc q) js (after_round j w)
  unfolding queue_jobs
  queue_jobs_more count i q j js w more =
      let w1 = (publish env (bulk_job_topic d) (job_event (bare_event j)) w).1 in
      rw (more, update_status_up env w1 (up _) j.id JobStatus.queued) refl

  sweep_past :
      (count : ℤ) (i : ℕ) (ks : List String) (rows : List JobRow)
      → ltb_ℤ (pos i) count ≡ false
      → sweep (queue_first count) i ks rows ≡ rows
  sweep_past count i ks rows h =
      sweep_idle (queue_first count) i ks rows (λ j le r. rw (stays_past i j count h le) refl)

  queue_jobs_lem :
      (count : ℤ) (i q : ℕ) (js : List Job) (w : World)
      → let r = queue_jobs env d count i q js w in
        (r.0 ≡ q + min (length js) (pos_part count - i))
        × (r.1.jobs ≡ sweep (queue_first count) i (map (λ j. j.id) js) w.jobs)
  unfolding queue_jobs
  queue_jobs_lem count i q [] w = (omega arith, refl)
  queue_jobs_lem count i q (j ∷ js) w = elim (Bool-cases (ltb_ℤ (pos i) count)) [
    | inl more ↦
        rw (queue_jobs_more count i q j js w more)
          (ground (arith, more, queue_jobs_lem count (suc i) (suc q) js (after_round j w)))
    | inr past ↦
        rw (past, none_left i count past)
          (omega arith, sym (sweep_past count i (map (λ x. x.id) (j ∷ js)) w.jobs past))
  ]

  -- Where Kafka refuses everything, the loop sends nothing.
  queue_jobs-unsent :
      (count : ℤ) (i q : ℕ) (js : List Job) (w : World)
      → ((n : ℕ) → env.publish_fault n ≢ none)
      → sent_jobs (queue_jobs env d count i q js w).1.log ≡ sent_jobs w.log
  unfolding queue_jobs
  queue_jobs-unsent count i q [] w h = refl
  queue_jobs-unsent count i q (j ∷ js) w h = elim (Bool-cases (ltb_ℤ (pos i) count)) [
    | inl more ↦
        rw (queue_jobs_more count i q j js w more) (
          ground (arith, h w.calls, queue_jobs-unsent count (suc i) (suc q) js (after_round j w) h))
    | inr past ↦ rw past refl
  ]

  module _ (hj : d.job_repo ≡ true) (hp : d.producer ≡ true) (w : World) (k : String)
      (count : ℤ) where
    queue_batch_steps : queue_batch env d k count w ≡ (
        let r =
          queue_jobs env d count 0 0
            (map job_to_domain (jobs_of k w.jobs))
            (ticked (tell_manager env d k w).1) in
        accepted k r.0 r.1)
    unfolding queue_batch
    queue_batch_steps =
        ground
          (arith, get_jobs_up env (tell_manager env d k w).1 (up _) k, tell_manager-jobs env d k w)

    -- The first `count` jobs are stored as queued and counted in the answer.
    queue_batch-queues :
        Distinct (jobs_of k w.jobs)
        → let r = queue_batch env d k count w in
          let n = min (length (jobs_of k w.jobs)) (pos_part count) in
          (r.0 ≡ reply 202 (record { batch_id = k; jobs_queued = n; estimated_seconds = n * 3 }))
          × (jobs_of k r.1.jobs ≡ map_from (queue_first count) 0 (jobs_of k w.jobs))
    unfolding accepted
    queue_batch-queues dis =
        let rows = jobs_of k w.jobs in
        let js = map job_to_domain rows in
        ground (
          arith,
          queue_batch_steps,
          tell_manager-jobs env d k w,
          queue_jobs_lem count 0 0 js (ticked (tell_manager env d k w).1),
          listed_ids rows,
          length-map rows job_to_domain,
          jobs_of-sweep (queue_first count) k 0 (ids rows) w.jobs
              (λ i r. queue_first-batch_id count i r),
          sweep-Distinct (queue_first count) (λ i r. queue_first-id count i r) 0 rows dis,
        )

    queue_batch-unsent :
        ((n : ℕ) → env.publish_fault n ≢ none)
        → sent_jobs (queue_batch env d k count w).1.log ≡ sent_jobs w.log
    unfolding accepted
    queue_batch-unsent h = ground (
      arith,
      queue_batch_steps,
      tell_manager-jobs env d k w,
      queue_jobs-unsent count 0 0 (map job_to_domain (jobs_of k w.jobs))
          (ticked (tell_manager env d k w).1) h,
    )

  -- Where there is no service, a partial generation that billing does not refuse is answered with
  -- 202: with a store that answers, the first `count` jobs are stored as queued and counted in the
  -- answer, whatever Kafka does; and where Kafka refuses every event, none of these jobs was sent.
  pub handle_confirm-queues :
      (w : World) (k : String) (count : ℤ)
      → d.service ≡ none
      → d.job_repo ≡ true
      → d.producer ≡ true
      → ((n : ℕ) → (txs : Option (List String)) × (env.block_reply n ≡ ok txs))
      → Distinct (jobs_of k w.jobs)
      → let req : ConfirmRequest = record { action = "generate_partial"; count = some count } in
        let r = handle_confirm env (some d) k (some req) w in
        let n = min (length (jobs_of k w.jobs)) (pos_part count) in
        (r.0 ≡ reply 202 (record { batch_id = k; jobs_queued = n; estimated_seconds = n * 3 }))
        × (jobs_of k r.1.jobs ≡ map_from (queue_first count) 0 (jobs_of k w.jobs))
        × (((n : ℕ) → env.publish_fault n ≢ none) → sent_jobs r.1.log ≡ sent_jobs w.log)
  unfolding handle_confirm known_action wanted_count confirm_count confirm_bare
  handle_confirm-queues w k count hs hj hp blocks dis =
      let blocked = (block_batch env "" count k w).1 in
      elim (Bool-cases d.billing) [
        | inl set ↦ (
          ground (arith, hs, set, blocks w.calls, queue_batch-queues hj hp blocked k count dis),
          ground (arith, hs, set, blocks w.calls, queue_batch-queues hj hp blocked k count dis),
          λ h. ground (arith, hs, set, blocks w.calls, queue_batch-unsent hj hp blocked k count h),
        )
        | inr unset ↦ (
          ground (arith, hs, unset, queue_batch-queues hj hp w k count dis),
          ground (arith, hs, unset, queue_batch-queues hj hp w k count dis),
          λ h. ground (arith, hs, unset, queue_batch-unsent hj hp w k count h),
        )
      ]
