-- ===== src/Confirm/Failed.antt =====
-- `ConfirmBatch` after billing, where the store answers, whatever Kafka answers: what is published, and
-- the rollback where a publication fails.
use bulk.Base.{
  ◌<◌, ◌⊎◌, ℕ, suc, ◌+◌, ◌-◌, String, ◌≡◌, refl, Bool, true, false, List, [], ◌∷◌, ◌++◌, map, take,
  drop, length, Option, none, some, arith, sym, ap, ◌∙◌, inl, inr, Bool-cases, if◌then◌else◌, ltb,
  All,
}
use bulk.Base.Int.{ℤ, pos_part}
use bulk.Domain.{Batch, BatchStatus}
use bulk.World.{World, Env, Result, ok}
use bulk.World.Rows.{JobRow}
use bulk.Postgres.Tables.{jobs_of}
use bulk.Postgres.Convert.{job_to_domain}
use bulk.Postgres.Calls.{ticked, get_jobs_up}
use bulk.Postgres.RoundTrip.{stored, saved_over}
use bulk.Postgres.Sweep.{listed_ids, Distinct, ids, sweep, map_from, sweep-Distinct, jobs_of-sweep}
use bulk.Manager.Cancel.{refund_requests}
use bulk.Confirm.{
  Service, no_hooks, Progress, no_progress, publish_jobs, publish_batch, owner_of, read_batch,
  roll_back,
}
use bulk.Confirm.Steps.{sent_jobs, push_all, tx_for, read_batch_lem}
use bulk.Confirm.Tries.{tried_row, try_step, taken, length-taken, uuids}
use bulk.Confirm.Rounds.{publish_jobs_rounds}
use bulk.Confirm.Rollback.{refund_step, refund_of, roll_back_lem}

module _ (env : Env) (took : ℕ → Bool) (txs : List String) (count : ℤ) where
  tried_row-id : (a : Bool) (tx : Option String) (r : JobRow) → (tried_row env a tx r).id ≡ r.id
  tried_row-id true none r = ground arith
  tried_row-id true (some t) r = ground arith
  tried_row-id false none r = ground arith
  tried_row-id false (some t) r = ground arith

  tried_row-batch_id :
      (a : Bool) (tx : Option String) (r : JobRow) → (tried_row env a tx r).batch_id ≡ r.batch_id
  tried_row-batch_id true none r = ground arith
  tried_row-batch_id true (some t) r = ground arith
  tried_row-batch_id false none r = ground arith
  tried_row-batch_id false (some t) r = ground arith

  try_step-id : (i : ℕ) (r : JobRow) → (try_step env took txs count i r).id ≡ r.id
  try_step-id i r = ground (arith, tried_row-id (took i) (tx_for txs i) r)

  try_step-batch_id : (i : ℕ) (r : JobRow) → (try_step env took txs count i r).batch_id ≡ r.batch_id
  try_step-batch_id i r = ground (arith, tried_row-batch_id (took i) (tx_for txs i) r)

  ids_tried :
      (i : ℕ) (rows : List JobRow) → ids (map_from (try_step env took txs count) i rows) ≡ ids rows
  ids_tried i [] = refl
  ids_tried i (r ∷ rows) = rw (try_step-id i r, ids_tried (suc i) rows) refl

  others-tried :
      (k : String) (i : ℕ) (rows : List JobRow)
      → All (λ x. x.id ≡ k → ⊥) rows
      → All (λ x. x.id ≡ k → ⊥) (map_from (try_step env took txs count) i rows)
  others-tried k i [] h = tt
  others-tried k i (r ∷ rows) h =
      ((λ e. h.0 (sym (try_step-id i r) ∙ e)), others-tried k (suc i) rows h.1)

  keeps_Distinct :
      (i : ℕ) (rows : List JobRow)
      → Distinct rows
      → Distinct (map_from (try_step env took txs count) i rows)
  keeps_Distinct i [] d = tt
  keeps_Distinct i (r ∷ rows) d =
      (rw (try_step-id i r) (others-tried r.id (suc i) rows d.0), keeps_Distinct (suc i) rows d.1)

module _ (env : Env) (s : Service) (hj : s.job_repo ≡ true) (k : String) (count : ℤ)
    (txs : List String) (w : World) (up : (n : ℕ) → env.store_fault n ≡ none) where
  published_up :
      (found : Result Batch) (v : World) (q : Progress)
      → read_batch env s no_hooks k (ticked w) ≡ (ok found, v)
      → let js = map job_to_domain (jobs_of k w.jobs) in
        let run = publish_jobs env s no_hooks txs count (owner_of found) 0 no_progress js v in
        run.0 ≡ ok q
        → (q.publish_error ≡ true → (roll_back env s no_hooks k count js q run.1).0 ≡ ok tt)
        → publish_batch env s no_hooks k count txs w ≡ (
          ok q.queued,
          if q.publish_error then (roll_back env s no_hooks k count js q run.1).1 else run.1,
        )
  unfolding publish_batch
  published_up found v q read ran rolled = elim (Bool-cases q.publish_error) [
    | inl failed ↦ ground (arith, get_jobs_up env w (up _) k, read, ran, failed, rolled failed)
    | inr fine ↦ ground (arith, get_jobs_up env w (up _) k, read, ran, fine)
  ]

-- With a store that answers, a batch that is stored, whose jobs have different ids, and a producer and both
-- repositories that are set, for any answers of Kafka: the jobs among the first `count` whose events
-- Kafka took are published, in their order, and their number is returned. If these are all of them, each
-- row of the first `count` is stored as queued, with the transaction assigned to it if that is a UUID, the
-- batches stay as they are, and no refund is asked for. If some event was refused, then from the row on
-- whose index is that number the rows below `count` are stored as refunded, also those whose events were
-- taken; the rows before it stay as the loop has left them, also those whose events were refused; the
-- batch is stored as cancelled, and billing is asked to refund all the UUIDs that were assigned (if
-- billing is set and there are any).
pub publish_batch-tries :
    (env : Env) (s : Service) (k : String) (count : ℤ) (txs : List String) (w : World) (b : Batch)
    → ((n : ℕ) → env.store_fault n ≡ none)
    → s.producer ≡ true
    → s.job_repo ≡ true
    → s.batch_repo ≡ true
    → stored k w ≡ some b
    → Distinct (jobs_of k w.jobs)
    → let r = publish_batch env s no_hooks k count txs w in
      let rows = jobs_of k w.jobs in
      let due = take (pos_part count) (ids rows) in
      (took : ℕ → Bool) × (let n = length (taken took 0 due) in
        let tried = map_from (try_step env took txs count) 0 rows in
        (r.0 ≡ ok n)
        × (sent_jobs r.1.log ≡ push_all (taken took 0 due) (sent_jobs w.log))
        × (((n ≡ length due)
              × (jobs_of k r.1.jobs ≡ tried)
              × (r.1.batches ≡ w.batches)
              × (refund_requests r.1.log ≡ refund_requests w.log))
            ⊎ ((n < length due)
                × (jobs_of k r.1.jobs
                    ≡ take n tried ++ map_from (refund_step count) n (drop n tried))
                × (stored k r.1 ≡ some (saved_over b (record b { status = BatchStatus.cancelled })))
                × (refund_requests r.1.log
                    ≡ refund_of s (uuids env txs 0 due) ++ refund_requests w.log))))
publish_batch-tries env s k count txs w b up hp hj hb st d =
    let (found, v, read, jobs, batches, log) = read_batch_lem env s no_hooks k (ticked w) in
    let rows = jobs_of k w.jobs in
    let js = map job_to_domain rows in
    let run = publish_jobs env s no_hooks txs count (owner_of found) 0 no_progress js v in
    let (took, q, loop) =
      publish_jobs_rounds env s up hp txs count (owner_of found) js 0 no_progress v in
    let step = try_step env took txs count in
    let due = take (pos_part count) (ids rows) in
    let n = length (taken took 0 due) in
    let listed = listed_ids rows in
    let same_due : take (pos_part count - 0) (map (λ j. j.id) js) ≡ due =
      ap (λ m. take m (map (λ j. j.id) js)) {x = pos_part count - 0} {y = pos_part count}
        (omega arith)
      ∙ ap (take (pos_part count)) listed in
    let tried : jobs_of k run.1.jobs ≡ map_from step 0 rows =
      ap (jobs_of k)
        (loop.1 ∙ ap (λ t. sweep step 0 t v.jobs) listed ∙ ap (sweep step 0 (ids rows)) jobs)
      ∙ jobs_of-sweep step k 0 (ids rows) w.jobs (try_step-batch_id env took txs count)
      ∙ sweep-Distinct step (try_step-id env took txs count) 0 rows d in
    let kept : run.1.batches ≡ w.batches = loop.2 ∙ batches in
    let sent : sent_jobs run.1.log ≡ push_all (taken took 0 due) (sent_jobs w.log) =
      loop.3
      ∙ ap (λ t. push_all (taken took 0 t) (sent_jobs v.log)) same_due
      ∙ ap (λ l. push_all (taken took 0 due) (sent_jobs l)) log in
    let asked : refund_requests run.1.log ≡ refund_requests w.log =
      loop.4 ∙ ap refund_requests log in
    let counted : q.queued ≡ n =
      loop.5 ∙ ap (λ t. 0 + length (taken took 0 t)) same_due ∙ omega arith in
    let error : q.publish_error ≡ ltb n (length due) =
      loop.6 ∙ ap (λ t. ltb (length (taken took 0 t)) (length t)) same_due in
    let assigned : q.assigned ≡ uuids env txs 0 due = loop.7 ∙ ap (uuids env txs 0) same_due in
    let rolled =
      roll_back_lem env s no_hooks up k count js q run.1 b hb (rw kept st)
        (rw tried (keeps_Distinct env took txs count 0 rows d))
        (listed ∙ sym (ap ids tried ∙ ids_tried env took txs count 0 rows)) in
    let whole = published_up env s hj k count txs w up found v q read loop.0 (λ failed. rolled.0) in
    (
      took,
      elim (Bool-cases q.publish_error) [
        | inr fine ↦
            rw (whole, fine)
              (
                ap ok counted,
                sent,
                inl (ground (arith, error, fine, length-taken took 0 due), tried, kept, asked),
              )
        | inl failed ↦
            rw (whole, failed)
              (
                ap ok counted,
                rolled.4 ∙ sent,
                inr (
                  ground (arith, error, failed),
                  rolled.1
                      ∙ ap
                          (λ m.
                            take m (jobs_of k run.1.jobs)
                            ++ map_from (refund_step count) m (drop m (jobs_of k run.1.jobs)))
                          counted
                      ∙ ap (λ t. take n t ++ map_from (refund_step count) n (drop n t)) tried,
                  rolled.2,
                  rolled.3
                      ∙ ap (λ t. refund_of s t ++ refund_requests run.1.log) assigned
                      ∙ ap (λ t. refund_of s (uuids env txs 0 due) ++ t) asked,
                ),
              )
      ],
    )
