-- ===== src/Manager/Cancel.antt =====
-- `SetCancelled`, with and without a refund.
use bulk.Base.{
  ℕ, ◌+◌, String, ◌≡◌, ◌≢◌, ◌⊎◌, inl, inr, refl, Bool, true, false, List, [], ◌∷◌, map, none, some,
  arith, if◌then◌else◌, ◌∙◌,
}
use bulk.Domain.{Batch, Job, BatchStatus, JobStatus}
use bulk.World.{World, Env, Event, refunded, ok}
use bulk.Postgres.Tables.{jobs_of}
use bulk.Postgres.Calls.{ticked, get_jobs_up}
use bulk.Postgres.RoundTrip.{stored, saved_over, get_batch-stored, stored-id, stored-completed_at}
use bulk.Postgres.Repositories.{get_jobs, save_batch, update_status}
use bulk.Outside.{refund_transactions}
use bulk.Manager.{
  BatchManager, set_cancelled, save_and_publish, refund_batch, refund_answered, refund_jobs,
  settle_refund, count_refunded, count_refunded_from,
}
use bulk.Manager.Saves.{save_and_publish-changed, save_and_publish-ok, save_and_publish-jobs}
use bulk.Manager.Progress.{listed, count_jobs}
use bulk.Postgres.Sweep.{Distinct}
use bulk.Manager.Refund.{closed, settle_refund-jobs, settle_refund-stored}

abbrev pub is_refunded : JobStatus → Bool
is_refunded JobStatus.refunded = true
is_refunded _ = false

-- The transactions of each refund that was asked for, the newest first.
abbrev pub refund_requests : List Event → List (List String)
refund_requests [] = []
refund_requests (refunded user txs batch ∷ log) = txs ∷ refund_requests log
refund_requests (_ ∷ log) = refund_requests log

count_refunded_from_lem :
    (n : ℕ) (js : List Job) → count_refunded_from n js ≡ n + count_jobs is_refunded js
unfolding count_refunded_from
count_refunded_from_lem n [] = omega arith
count_refunded_from_lem n (j ∷ js) =
    ground (arith, count_refunded_from_lem n js, count_refunded_from_lem (n + 1) js)

module _ (env : Env) (m : BatchManager) where
  refund_jobs-ok : (js : List Job) (u : World) → (refund_jobs env m js u).0 ≡ ok tt
  unfolding refund_jobs
  refund_jobs-ok [] u = refl
  refund_jobs-ok (j ∷ js) u = ground (
    arith,
    refund_jobs-ok js u,
    refund_jobs-ok js (update_status env j.id JobStatus.refunded u).1,
  )

  pub refund_jobs-log : (js : List Job) (u : World) → (refund_jobs env m js u).1.log ≡ u.log
  unfolding refund_jobs update_status
  refund_jobs-log [] u = refl
  refund_jobs-log (j ∷ js) u = ground (
    arith,
    refund_jobs-log js u,
    refund_jobs-log js (update_status env j.id JobStatus.refunded u).1,
  )

  settle_refund-ok : (k : String) (b : Batch) (u : World) → (settle_refund env m k b u).0 ≡ ok tt
  unfolding settle_refund get_jobs
  settle_refund-ok k b u =
      ground (arith, refund_jobs-ok (listed k u) (ticked u), refund_jobs-ok [] u)

  settle_refund-log :
      (k : String) (b : Batch) (u : World)
      → refund_requests (settle_refund env m k b u).1.log ≡ refund_requests u.log
  unfolding settle_refund get_jobs save_batch
  settle_refund-log k b u =
      ground (arith, refund_jobs-log (listed k u) (ticked u), refund_jobs-log [] u)

  pub save_and_publish-log :
      (b : Batch) (u : World)
      → refund_requests (save_and_publish env m b u).1.log ≡ refund_requests u.log
  unfolding save_and_publish save_batch
  save_and_publish-log b u = ground arith

  pub count_refunded-log : (k : String) (u : World) → (count_refunded env m k u).1.log ≡ u.log
  unfolding count_refunded get_jobs
  count_refunded-log k u = ground arith

  refund_batch-ok : (k : String) (b : Batch) (u : World) → (refund_batch env m k b u).0 ≡ ok tt
  unfolding refund_batch refund_answered
  refund_batch-ok k b u = ground (
    arith,
    settle_refund-ok k b (refund_transactions env b.user_id b.billing_transaction_ids k u).1,
  )

  refund_batch_accepted :
      (k : String) (b : Batch) (u : World) (t : String) (ts : List String)
      → m.billing ≡ true
      → b.billing_transaction_ids ≡ t ∷ ts
      → env.refund_fault u.calls ≡ none
      → (refund_batch env m k b u).1
        ≡ (settle_refund env m k b
            (refund_transactions env b.user_id b.billing_transaction_ids k u).1).1
  unfolding refund_batch refund_answered
  refund_batch_accepted k b u t ts hm e a = ground arith

module _ (env : Env) (m : BatchManager) (w : World) (k : String) (b : Batch)
    (up : (n : ℕ) → env.store_fault n ≡ none) (hb : m.batch_repo ≡ true)
    (s : stored k w ≡ some b) where
  -- The batch as it is first saved, and the state after that.
  abbrev cancelled_batch : Batch
  cancelled_batch = record b { status = BatchStatus.cancelled }

  abbrev after_save : World
  after_save = (save_and_publish env m cancelled_batch (ticked w)).1

  abbrev after_refund : World
  after_refund = (refund_batch env m k cancelled_batch after_save).1

  set_cancelled_steps : set_cancelled env m k w ≡ count_refunded env m k after_refund
  unfolding set_cancelled
  set_cancelled_steps = ground (
    arith,
    get_batch-stored env w k b (up _) s,
    save_and_publish-ok env m (ticked w) cancelled_batch (up _),
    refund_batch-ok env m k cancelled_batch after_save,
  )

  after_save-stored : stored k after_save ≡ some (saved_over b cancelled_batch)
  after_save-stored =
      save_and_publish-changed env m w (ticked w) k b cancelled_batch up s refl refl refl

  -- Counting reads the tables and leaves them.
  counted :
      (v : World)
      → ((count_refunded env m k v).1.batches ≡ v.batches)
        × ((count_refunded env m k v).1.jobs ≡ v.jobs)
        × ((count_refunded env m k v).0
            ≡ ok (if m.job_repo then count_jobs is_refunded (listed k v) else 0))
  unfolding count_refunded
  counted v = ground (arith, get_jobs_up env v (up _) k, count_refunded_from_lem 0 (listed k v))

  -- With a store that answers, the result of a cancellation is the number of the batch's jobs that
  -- are stored as refunded when it is over (0 with no repository of jobs).
  pub set_cancelled-counts :
      (set_cancelled env m k w).0
      ≡ ok (if m.job_repo then count_jobs is_refunded (listed k (set_cancelled env m k w).1) else 0)
  set_cancelled-counts = ground (arith, set_cancelled_steps, counted after_refund)

  -- The refund is asked for once, of exactly the transactions that were reserved.
  pub set_cancelled-asks :
      (t : String) (ts : List String)
      → ((n : ℕ) → env.refund_fault n ≡ none)
      → m.billing ≡ true
      → b.billing_transaction_ids ≡ t ∷ ts
      → refund_requests (set_cancelled env m k w).1.log ≡ (t ∷ ts) ∷ refund_requests w.log
  set_cancelled-asks t ts accepts hm e =
      let asked = (refund_transactions env b.user_id b.billing_transaction_ids k after_save).1 in
      ground (
        arith,
        set_cancelled_steps,
        refund_batch_accepted env m k cancelled_batch after_save t ts hm e
            (accepts after_save.calls),
        count_refunded-log env m k after_refund,
        settle_refund-log env m k cancelled_batch asked,
        save_and_publish-log env m cancelled_batch (ticked w),
      )

  -- A cancelled batch with reserved transactions, whose refund billing accepts: every job of it that
  -- was pending, queued or processing is stored as refunded and every other one as it was, the batch
  -- is stored as cancelled with no reserved transactions, and the one refund that was asked for names
  -- exactly those that it had.
  pub set_cancelled-refunds :
      (t : String) (ts : List String)
      → ((n : ℕ) → env.refund_fault n ≡ none)
      → m.billing ≡ true
      → m.job_repo ≡ true
      → b.billing_transaction_ids ≡ t ∷ ts
      → Distinct (jobs_of k w.jobs)
      → (jobs_of k (set_cancelled env m k w).1.jobs ≡ map closed (jobs_of k w.jobs))
        × (stored k (set_cancelled env m k w).1
            ≡ some (
                saved_over b
                  (record b { status = BatchStatus.cancelled; billing_transaction_ids = [] })))
        × (refund_requests (set_cancelled env m k w).1.log ≡ (t ∷ ts) ∷ refund_requests w.log)
  set_cancelled-refunds t ts accepts hm hj e d = ground (
    arith,
    set_cancelled_steps,
    counted after_refund,
    refunding,
    count_refunded-log env m k after_refund,
    settle_refund-log env m k cancelled_batch asked,
    save_and_publish-log env m cancelled_batch (ticked w),
    save_and_publish-jobs env m (ticked w) cancelled_batch,
    settle_refund-jobs env m asked k cancelled_batch up (rw kept d) hj,
    settle_refund-stored env m asked k cancelled_batch up (saved_over b cancelled_batch)
        (stored-id k w b s) (stored-completed_at k w b s) after_save-stored,
  )
    where
      asked : World
      asked = (refund_transactions env b.user_id b.billing_transaction_ids k after_save).1

      kept : after_save.jobs ≡ w.jobs
      kept = save_and_publish-jobs env m (ticked w) cancelled_batch

      refunding : after_refund ≡ (settle_refund env m k cancelled_batch asked).1
      refunding =
          refund_batch_accepted env m k cancelled_batch after_save t ts hm e
            (accepts after_save.calls)

  -- Without a refund, since billing is not set, nothing was reserved, or billing refuses, the jobs
  -- stay as they were and the cancelled batch keeps its transactions.
  pub set_cancelled_no_refund :
      ((m.billing ≡ false)
        ⊎ (b.billing_transaction_ids ≡ [])
        ⊎ ((n : ℕ) → env.refund_fault n ≢ none))
      → ((set_cancelled env m k w).1.jobs ≡ w.jobs)
        × (stored k (set_cancelled env m k w).1 ≡ some (saved_over b cancelled_batch))
  unfolding refund_batch refund_answered
  set_cancelled_no_refund why = ground (
    arith,
    set_cancelled_steps,
    counted after_refund,
    no_refund why,
    after_save-stored,
    save_and_publish-jobs env m (ticked w) cancelled_batch,
  )
    where
      no_refund :
          ((m.billing ≡ false)
            ⊎ (b.billing_transaction_ids ≡ [])
            ⊎ ((n : ℕ) → env.refund_fault n ≢ none))
          → (after_refund.jobs ≡ after_save.jobs) × (after_refund.batches ≡ after_save.batches)
      no_refund (inl unset) = ground arith
      no_refund (inr (inl nothing)) = ground arith
      no_refund (inr (inr refuses)) = ground (arith, refuses after_save.calls)

  -- Where nothing is reserved, no refund is asked for.
  pub set_cancelled_nothing_reserved :
      b.billing_transaction_ids ≡ []
      → refund_requests (set_cancelled env m k w).1.log ≡ refund_requests w.log
  unfolding refund_batch
  set_cancelled_nothing_reserved e = ground (
    arith,
    set_cancelled_steps,
    count_refunded-log env m k after_refund,
    save_and_publish-log env m cancelled_batch (ticked w),
  )

-- Cancelling a batch twice asks billing for one refund only, of the transactions that were reserved,
-- if the store answers and billing accepts.
pub set_cancelled_twice :
    (env : Env) (m : BatchManager) (w : World) (k : String) (b : Batch) (t : String)
    (ts : List String)
    → ((n : ℕ) → env.store_fault n ≡ none)
    → ((n : ℕ) → env.refund_fault n ≡ none)
    → m.batch_repo ≡ true
    → m.job_repo ≡ true
    → m.billing ≡ true
    → stored k w ≡ some b
    → b.billing_transaction_ids ≡ t ∷ ts
    → Distinct (jobs_of k w.jobs)
    → refund_requests (set_cancelled env m k (set_cancelled env m k w).1).1.log
      ≡ (t ∷ ts) ∷ refund_requests w.log
set_cancelled_twice env m w k b t ts up accepts hb hj hm s e d =
    let (_, after, asked) = set_cancelled-refunds env m w k b up hb s t ts accepts hm hj e d in
    set_cancelled_nothing_reserved env m (set_cancelled env m k w).1 k _ up hb after refl ∙ asked
