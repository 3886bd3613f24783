-- ===== src/Confirm/Queue.antt =====
-- The publishing loop of `ConfirmBatch` where the store and Kafka answer.
use bulk.Base.{
  ◌≤◌, ℕ, suc, ◌+◌, ◌-◌, String, ◌≡◌, refl, true, false, List, [], ◌∷◌, map, take, take-nil, length,
  length-map, Option, none, some, arith, sym, ap, inl, inr, Bool-cases, if◌then◌else◌, min,
}
use bulk.Base.Int.{ℤ, pos, pos_part, ltb_ℤ}
use bulk.Domain.{Job}
use bulk.World.{World, Env, ok}
use bulk.World.Rows.{JobRow}
use bulk.Postgres.Tables.{jobs_of}
use bulk.Postgres.Convert.{job_to_domain}
use bulk.Postgres.Calls.{ticked, get_jobs_up}
use bulk.Postgres.Sweep.{
  listed_ids, Distinct, ids, sweep, map_from, sweep-Distinct, jobs_of-sweep, sweep_idle,
}
use bulk.Confirm.{
  Service, no_hooks, Progress, no_progress, publish_job, publish_jobs, publish_batch, owner_of,
}
use bulk.Confirm.Steps.{
  sent_jobs, push_all, queued_of, failed_of, tx_for, queued_row, queue_step, with_assigned,
  read_batch_lem, publish_job_up,
}

module _ (env : Env) (s : Service) (up : (n : ℕ) → env.store_fault n ≡ none)
    (sends : (n : ℕ) → env.publish_fault n ≡ none) (producer : s.producer ≡ true) where
  stays_past :
      (i j : ℕ) (count : ℤ) → ltb_ℤ (pos i) count ≡ false → i ≤ j → ltb_ℤ (pos j) count ≡ false
  stays_past i j count h le = ground arith

  -- From the count on, the loop leaves the rows alone.
  sweep_past :
      (txs : List String) (count : ℤ) (i : ℕ) (ks : List String) (rows : List JobRow)
      → ltb_ℤ (pos i) count ≡ false
      → sweep (queue_step env txs count) i ks rows ≡ rows
  sweep_past txs count i ks rows h =
      sweep_idle (queue_step env txs count) i ks rows
        (λ j le r. rw (stays_past i j count h le) refl)

  steps :
      (i : ℕ) (count : ℤ)
      → ltb_ℤ (pos i) count ≡ true
      → pos_part count - i ≡ suc (pos_part count - suc i)
  steps i count h = ground arith

  none_left : (i : ℕ) (count : ℤ) → ltb_ℤ (pos i) count ≡ false → pos_part count - i ≡ 0
  none_left i count h = ground arith

  publish_jobs_up :
      (txs : List String) (count : ℤ) (owner : String × String) (js : List Job) (i : ℕ)
      (p : Progress) (w : World)
      → let r = publish_jobs env s no_hooks txs count owner i p js w in
        (r.1.jobs ≡ sweep (queue_step env txs count) i (map (λ j. j.id) js) w.jobs)
        × (r.1.batches ≡ w.batches)
        × (sent_jobs r.1.log
            ≡ push_all (take (pos_part count - i) (map (λ j. j.id) js)) (sent_jobs w.log))
        × (queued_of r.0 ≡ some (p.queued + min (length js) (pos_part count - i)))
        × (failed_of r.0 ≡ some p.publish_error)
  unfolding publish_jobs
  publish_jobs_up txs count owner [] i p w = (refl, refl, rw take-nil, ap some (omega arith), refl)
  publish_jobs_up txs count owner (j ∷ js) i p w = elim (Bool-cases (ltb_ℤ (pos i) count)) [
    | inl more ↦
        let tx = tx_for txs i in
        let r = publish_job env s no_hooks txs count owner i p j w in
        let p' : Progress = record (with_assigned env tx p) { queued = p.queued + 1 } in
        rw (more, steps i count more)
          (ground (
            arith,
            publish_job_up env s up sends producer txs count owner i p j w,
            publish_jobs_up txs count owner js (suc i) p' r.1,
          ))
    | inr past ↦
        rw (past, none_left i count past)
          (
            sym (sweep_past txs count i (map (λ x. x.id) (j ∷ js)) w.jobs past),
            refl,
            refl,
            ap some (omega arith),
            refl,
          )
  ]

  queue_step-id :
      (txs : List String) (count : ℤ) (i : ℕ) (r : JobRow)
      → (queue_step env txs count i r).id ≡ r.id
  queue_step-id txs count i r = queued-id (tx_for txs i)
    where
      queued-id :
          (tx : Option String) → (if ltb_ℤ (pos i) count then queued_row env tx r else r).id ≡ r.id
      queued-id none = ground arith
      queued-id (some t) = ground arith

  queue_step-batch_id :
      (txs : List String) (count : ℤ) (i : ℕ) (r : JobRow)
      → (queue_step env txs count i r).batch_id ≡ r.batch_id
  queue_step-batch_id txs count i r = queued-id (tx_for txs i)
    where
      queued-id :
          (tx : Option String)
          → (if ltb_ℤ (pos i) count then queued_row env tx r else r).batch_id ≡ r.batch_id
      queued-id none = ground arith
      queued-id (some t) = ground arith

  -- With a store and a Kafka that answer, publishing a batch queues exactly its first `count` jobs,
  -- each with the transaction assigned to it, leaves its other jobs and every batch as they were,
  -- publishes one event for each queued job, in the order of the jobs, and returns their number.
  pub publish_batch-queues :
      (w : World) (k : String) (count : ℤ) (txs : List String)
      → s.job_repo ≡ true
      → Distinct (jobs_of k w.jobs)
      → let r = publish_batch env s no_hooks k count txs w in
        let rows = jobs_of k w.jobs in
        (r.0 ≡ ok (min (length rows) (pos_part count)))
        × (jobs_of k r.1.jobs ≡ map_from (queue_step env txs count) 0 rows)
        × (r.1.batches ≡ w.batches)
        × (sent_jobs r.1.log ≡ push_all (take (pos_part count) (ids rows)) (sent_jobs w.log))
  unfolding publish_batch
  publish_batch-queues w k count txs hj d =
      let (found, v, read, jobs, batches, log) = read_batch_lem env s no_hooks k (ticked w) in
      let js = map job_to_domain (jobs_of k w.jobs) in
      ground (
        arith,
        get_jobs_up env w (up _) k,
        read,
        jobs,
        batches,
        log,
        publish_jobs_up txs count (owner_of found) js 0 no_progress v,
        listed_ids (jobs_of k w.jobs),
        length-map (jobs_of k w.jobs) job_to_domain,
        jobs_of-sweep (queue_step env txs count) k 0 (ids (jobs_of k w.jobs)) w.jobs
            (queue_step-batch_id txs count),
        sweep-Distinct (queue_step env txs count) (queue_step-id txs count) 0 (jobs_of k w.jobs) d,
      )
