-- ===== src/Handlers/Cancel/Answer.antt =====
-- What a client is told of a cancellation, against what the cancellation does.
use bulk.Base.{
  ℕ, ◌+◌, String, ◌≡◌, ◌≢◌, ◌⊎◌, refl, true, false, List, [], ◌∷◌, map, none, some, arith,
}
use bulk.Domain.{Batch, Job}
use bulk.World.{World, Env}
use bulk.World.Rows.{JobRow}
use bulk.Postgres.Tables.{jobs_of}
use bulk.Postgres.Convert.{job_to_domain}
use bulk.Postgres.Calls.{ticked, get_jobs_up}
use bulk.Postgres.RoundTrip.{stored, get_batch-stored}
use bulk.Postgres.Sweep.{Distinct}
use bulk.Manager.{BatchManager, is_open, set_cancelled}
use bulk.Manager.Progress.{listed, count_jobs}
use bulk.Manager.Refund.{closed}
use bulk.Manager.Cancel.{
  is_refunded, refund_requests, set_cancelled-counts, set_cancelled-refunds,
  set_cancelled_no_refund,
}
use bulk.Handlers.Reply.{reply, Deps}
use bulk.Handlers.Cancel.{count_open_from, reserved_before, open_before, handle_cancel}

count_open_from_lem : (n : ℕ) (js : List Job) → count_open_from n js ≡ n + count_jobs is_open js
unfolding count_open_from
count_open_from_lem n [] = omega arith
count_open_from_lem n (j ∷ js) =
    ground (arith, count_open_from_lem n js, count_open_from_lem (n + 1) js)

-- Closing the open jobs adds them to the refunded ones.
count_jobs-closed :
    (rows : List JobRow)
    → count_jobs is_refunded (map job_to_domain (map closed rows))
      ≡ count_jobs is_open (map job_to_domain rows)
        + count_jobs is_refunded (map job_to_domain rows)
unfolding job_to_domain
count_jobs-closed [] = refl
count_jobs-closed (r ∷ rows) = ground (arith, count_jobs-closed rows)

module _ (env : Env) (d : Deps) (m : BatchManager) (w : World) (k : String) (b : Batch)
    (up : (n : ℕ) → env.store_fault n ≡ none) (hb : d.batch_repo ≡ true) (hj : d.job_repo ≡ true)
    (hm : d.batch_manager ≡ some m) (mb : m.batch_repo ≡ true) (mj : m.job_repo ≡ true)
    (s : stored k w ≡ some b) where
  -- The state from which the batch is cancelled.
  abbrev read_twice : World
  read_twice = ticked (ticked w)

  abbrev cancelled : World
  cancelled = (set_cancelled env m k read_twice).1

  -- With a store that answers, the answer has the open jobs and the reserved transactions of before
  -- and the refunded jobs of after the cancellation, and the state is that after `SetCancelled`.
  handle_cancel_lem : handle_cancel env (some d) k w ≡ (
    reply 200 (record {
      batch_id = k;
      pending = count_jobs is_open (listed k w);
      refunded = count_jobs is_refunded (listed k cancelled);
      transaction_ids = b.billing_transaction_ids;
    }),
    cancelled,
  )
  unfolding handle_cancel reserved_before open_before
  handle_cancel_lem = ground (
    arith,
    get_batch-stored env w k b (up _) s,
    get_jobs_up env (ticked w) (up _) k,
    count_open_from_lem 0 (listed k w),
    set_cancelled-counts env m read_twice k b up mb s,
  )

  -- A cancelled batch with reserved transactions, whose refund billing accepts: the answer to the
  -- client names the transactions of the one refund that was asked for, its pending jobs are those
  -- that were open, and the refunded ones are these and those that were refunded before.
  pub handle_cancel-refunds :
      (t : String) (ts : List String)
      → ((n : ℕ) → env.refund_fault n ≡ none)
      → m.billing ≡ true
      → b.billing_transaction_ids ≡ t ∷ ts
      → Distinct (jobs_of k w.jobs)
      → let r = handle_cancel env (some d) k w in
        (r.0
          ≡ reply 200 (record {
            batch_id = k;
            pending = count_jobs is_open (listed k w);
            refunded = count_jobs is_open (listed k w) + count_jobs is_refunded (listed k w);
            transaction_ids = t ∷ ts;
          }))
        × (refund_requests r.1.log ≡ (t ∷ ts) ∷ refund_requests w.log)
        × (jobs_of k r.1.jobs ≡ map closed (jobs_of k w.jobs))
  handle_cancel-refunds t ts accepts billing e dis =
      let (jobs, after, asked) =
        set_cancelled-refunds env m read_twice k b up mb s t ts accepts billing mj e dis in
      ground (arith, handle_cancel_lem, jobs, asked, count_jobs-closed (jobs_of k w.jobs))

  -- Without a refund, since billing is not set, nothing was reserved, or billing refuses, the client
  -- is answered with 200 all the same, and told of the transactions that stay reserved, of the open
  -- jobs, and of the jobs that were refunded before; no job is changed.
  pub handle_cancel_no_refund :
      ((m.billing ≡ false)
        ⊎ (b.billing_transaction_ids ≡ [])
        ⊎ ((n : ℕ) → env.refund_fault n ≢ none))
      → let r = handle_cancel env (some d) k w in
        (r.0
          ≡ reply 200 (record {
            batch_id = k;
            pending = count_jobs is_open (listed k w);
            refunded = count_jobs is_refunded (listed k w);
            transaction_ids = b.billing_transaction_ids;
          }))
        × (r.1.jobs ≡ w.jobs)
  handle_cancel_no_refund why =
      let (jobs, after) = set_cancelled_no_refund env m read_twice k b up mb s why in
      ground (arith, handle_cancel_lem, jobs)
