-- ===== src/Confirm/Rollback.antt =====
-- The rollback of `ConfirmBatch` after a failed publication.
use bulk.Base.{
  ◌≤◌, ℕ, zero, suc, String, ◌≡◌, refl, true, false, List, [], ◌∷◌, ◌++◌, map, take, drop, none,
  some, arith, sym, ap, inl, inr, eq_iff, Bool-cases, ◌∙◌, if◌then◌else◌,
}
use bulk.Base.Int.{ℤ, pos, ltb_ℤ}
use bulk.Domain.{Batch, Job, BatchStatus, JobStatus}
use bulk.World.{World, Env, ok}
use bulk.World.Rows.{JobRow}
use bulk.Postgres.Tables.{jobs_of, update_job}
use bulk.Postgres.Calls.{ticked, update_status_up, save_batch_up}
use bulk.Postgres.Repositories.{with_status}
use bulk.Postgres.RoundTrip.{
  stored, saved_over, stored-save_batch, get_batch-stored, stored-id, stored-completed_at,
}
use bulk.Postgres.Sweep.{Distinct, ids, sweep, map_from, sweep-drop, jobs_of-sweep, sweep_idle}
use bulk.Manager.Cancel.{refund_requests}
use bulk.Confirm.Steps.{sent_jobs}
use bulk.Confirm.{Service, Hooks, Progress, refund_rest, cancel_batch, refund_assigned, roll_back}

-- What the rollback does to row number i.
abbrev pub refund_step : ℤ → ℕ → JobRow → JobRow
refund_step count i r = if ltb_ℤ (pos i) count then with_status JobStatus.refunded r else r

-- The refund that the rollback asks for, if any.
abbrev pub refund_of : Service → List String → List (List String)
refund_of s [] = []
refund_of s (t ∷ ts) = if s.billing then (t ∷ ts) ∷ [] else []

module _ (env : Env) (s : Service) (hooks : Hooks) (up : (n : ℕ) → env.store_fault n ≡ none) where
  refund_step-id : (count : ℤ) (i : ℕ) (r : JobRow) → (refund_step count i r).id ≡ r.id
  refund_step-id count i r = ground arith

  refund_step-batch_id :
      (count : ℤ) (i : ℕ) (r : JobRow) → (refund_step count i r).batch_id ≡ r.batch_id
  refund_step-batch_id count i r = ground arith

  stays_past :
      (i j : ℕ) (count : ℤ) → ltb_ℤ (pos i) count ≡ false → i ≤ j → ltb_ℤ (pos j) count ≡ false
  stays_past i j count h le = ground arith

  sweep_past :
      (count : ℤ) (i : ℕ) (ks : List String) (rows : List JobRow)
      → ltb_ℤ (pos i) count ≡ false
      → sweep (refund_step count) i ks rows ≡ rows
  sweep_past count i ks rows h =
      sweep_idle (refund_step count) i ks rows (λ j le r. rw (stays_past i j count h le) refl)

  refund_rest_lem :
      (count : ℤ) (i : ℕ) (js : List Job) (w : World)
      → let r = refund_rest env s hooks count i js w in
        (r.0 ≡ ok tt)
        × (r.1.jobs ≡ sweep (refund_step count) i (map (λ j. j.id) js) w.jobs)
        × (r.1.batches ≡ w.batches)
        × (r.1.log ≡ w.log)
  unfolding refund_rest
  refund_rest_lem count i [] w = (refl, refl, refl, refl)
  refund_rest_lem count i (j ∷ js) w = elim (Bool-cases (ltb_ℤ (pos i) count)) [
    | inl more ↦ rw more (
        ground (
          arith,
          update_status_up env w (up _) j.id JobStatus.refunded,
          refund_rest_lem count (suc i) js (record w {
            calls = suc w.calls;
            jobs = update_job j.id (with_status JobStatus.refunded) w.jobs;
          }),
        ))
    | inr past ↦
        rw past (refl, sym (sweep_past count i (map (λ x. x.id) (j ∷ js)) w.jobs past), refl, refl)
  ]

  cancel_batch_lem :
      (k : String) (w : World) (b : Batch)
      → s.batch_repo ≡ true
      → stored k w ≡ some b
      → let r = cancel_batch env s hooks k w in
        (r.0 ≡ ok tt)
        × (r.1.jobs ≡ w.jobs)
        × (stored k r.1 ≡ some (saved_over b (record b { status = BatchStatus.cancelled })))
        × (r.1.log ≡ w.log)
  unfolding cancel_batch
  cancel_batch_lem k w b hb st =
      let c : Batch = record b { status = BatchStatus.cancelled } in
      ground (
        arith,
        get_batch-stored env w k b (up _) st,
        save_batch_up env (ticked w) (up _) c,
        stored-save_batch env (ticked w) c k (up _) (stored-completed_at k w b st),
        stored-id k w b st,
        eq_iff b.id k,
      )

  refund_assigned_lem :
      (k : String) (ts : List String) (w : World)
      → let r = refund_assigned env s hooks k ts w in
        (r.0 ≡ ok tt)
        × (r.1.jobs ≡ w.jobs)
        × (r.1.batches ≡ w.batches)
        × (refund_requests r.1.log ≡ refund_of s ts ++ refund_requests w.log)
        × (sent_jobs r.1.log ≡ sent_jobs w.log)
  refund_assigned_lem k [] w = (refl, refl, refl, refl, refl)
  refund_assigned_lem k (t ∷ ts) w = ground arith

  map-drop :
      {A : Type 0} (f : A → String) (n : ℕ) (xs : List A) → map f (drop n xs) ≡ drop n (map f xs)
  map-drop f zero xs = refl
  map-drop f (suc n) [] = refl
  map-drop f (suc n) (x ∷ xs) = map-drop f n xs

  -- The rollback of a stored batch, with the ids of its jobs.
  pub roll_back_lem :
      (k : String) (count : ℤ) (js : List Job) (p : Progress) (w : World) (b : Batch)
      → s.batch_repo ≡ true
      → stored k w ≡ some b
      → Distinct (jobs_of k w.jobs)
      → map (λ j. j.id) js ≡ ids (jobs_of k w.jobs)
      → let rows = jobs_of k w.jobs in
        let r = roll_back env s hooks k count js p w in
        (r.0 ≡ ok tt)
        × (jobs_of k r.1.jobs
            ≡ take p.queued rows ++ map_from (refund_step count) p.queued (drop p.queued rows))
        × (stored k r.1 ≡ some (saved_over b (record b { status = BatchStatus.cancelled })))
        × (refund_requests r.1.log ≡ refund_of s p.assigned ++ refund_requests w.log)
        × (sent_jobs r.1.log ≡ sent_jobs w.log)
  unfolding roll_back
  roll_back_lem k count js p w b hb st d listed =
      let rows = jobs_of k w.jobs in
      let w1 = (refund_assigned env s hooks k p.assigned w).1 in
      let w2 = (cancel_batch env s hooks k w1).1 in
      let (done1, jobs1, batches1, log1, sent1) = refund_assigned_lem k p.assigned w in
      let (done2, jobs2, stored2, log2) = cancel_batch_lem k w1 b hb (rw batches1 st) in
      let (done3, jobs3, batches3, log3) = refund_rest_lem count p.queued (drop p.queued js) w2 in
      let left : map (λ j. j.id) (drop p.queued js) ≡ ids (drop p.queued rows) =
        map-drop (λ j. j.id) p.queued js
        ∙ ap (drop p.queued) listed
        ∙ sym (map-drop (λ r. r.id) p.queued rows) in
      ground (
        arith,
        done1,
        done2,
        done3,
        jobs3,
        batches3,
        log3,
        sent1,
        jobs_of-sweep (refund_step count) k p.queued (ids (drop p.queued rows)) w.jobs
            (refund_step-batch_id count),
        sweep-drop (refund_step count) (refund_step-id count) p.queued p.queued rows d,
        left,
      )
