-- ===== src/Manager/Races.antt =====
-- A change of a job's status and a cancellation of its batch at the same time.
use bulk.Base.{
  ℕ, suc, String, ◌≡◌, ◌≢◌, refl, true, List, [], ◌∷◌, Option, none, some, arith, inl, inr, ◌∙◌, ap,
  sym, subst, if◌then◌else◌,
}
use bulk.Domain.{Batch, Job, BatchStatus}
use bulk.World.{World, Env, Action, pure, gets, ok, ignore, Result-cases, ◌>>=◌, ◌>>◌}
use bulk.Postgres.Calls.{ticked, get_jobs_up}
use bulk.Postgres.Tables.{jobs_of}
use bulk.Postgres.RoundTrip.{stored, get_batch-stored, stored-id, stored-completed_at}
use bulk.Postgres.Repositories.{get_batch, get_jobs}
use bulk.Postgres.Sweep.{Distinct}
use bulk.Manager.{
  BatchManager, save_and_publish, set_cancelled, on_job_status_change, update_progress, progressed,
  tally,
}
use bulk.Manager.Saves.{save_and_publish-stored}
use bulk.Manager.Cancel.{
  refund_requests, save_and_publish-log, set_cancelled-asks, set_cancelled-refunds,
}
use bulk.Manager.Progress.{listed, progressed-tally, progress_of, all_settled}

module _ (env : Env) (m : BatchManager) where
  -- `OnJobStatusChange` up to the batch that it is going to save.
  pub progress_read : String → Action (Option Batch)
  progress_read k = do
    jobs ← get_jobs env k
    elim jobs [
      | [] ↦ pure none
      | j ∷ js ↦ (do
        b ← get_batch env k
        n ← gets (λ w. w.calls)
        pure (some (progressed b (tally (j ∷ js)) (env.now n))))
    ]

  -- The rest of it.
  pub progress_write : Option Batch → Action (Unit {0})
  progress_write none = pure tt
  progress_write (some b) = save_and_publish env m b

  -- Without an interleaving the two are the whole.
  progress_parts :
      (k : String) (w : World)
      → m.batch_repo ≡ true
      → m.job_repo ≡ true
      → on_job_status_change env m k w ≡ (progress_read k >>= progress_write) w
  unfolding on_job_status_change update_progress progress_read progress_write
  progress_parts k w hb hj = elim (Result-cases (get_jobs env k w).0) [
    | inl ([], listed_none) ↦ ground (arith, listed_none)
    | inl (j ∷ js, found) ↦ elim (Result-cases (get_batch env k (get_jobs env k w).1).0) [
      | inl (b, read) ↦ ground (arith, found, read)
      | inr (e, missing) ↦ ground (arith, found, missing)
    ]
    | inr (e, fails) ↦ ground (arith, fails)
  ]

  -- A cancellation that runs between the two parts.
  pub cancelled_between : String → Action (Unit {0})
  unfolding progress_read progress_write
  cancelled_between k = do
    seen ← progress_read k
    ignore (set_cancelled env m k)
    progress_write seen

module _ (env : Env) (m : BatchManager) (w : World) (k : String) (b : Batch) (j : Job)
    (js : List Job) (up : (n : ℕ) → env.store_fault n ≡ none) (s : stored k w ≡ some b)
    (l : listed k w ≡ j ∷ js) where
  -- What the change of the status has seen.
  abbrev seen_at : ℕ
  seen_at = env.now (suc (suc w.calls))

  progress_read-seen :
      progress_read env m k w ≡ (ok (some (progress_of b (j ∷ js) seen_at)), ticked (ticked w))
  unfolding progress_read
  progress_read-seen = ground (
    arith,
    get_jobs_up env w (up w.calls) k,
    get_batch-stored env (ticked w) k b (up _) s,
    progressed-tally b (j ∷ js) seen_at,
  )

  abbrev after_cancel : World
  after_cancel = (set_cancelled env m k (ticked (ticked w))).1

  cancelled_between-steps :
      (cancelled_between env m k w).1
      ≡ (save_and_publish env m (progress_of b (j ∷ js) seen_at) after_cancel).1
  unfolding cancelled_between progress_write
  cancelled_between-steps = ground (arith, progress_read-seen)

  -- A batch with jobs and reserved transactions, with a store that answers, a billing that accepts each
  -- refund, and a clock that runs: a cancellation between the reading and the saving of a change of a
  -- job's status is undone by it. The batch is stored as completed or processing again, with the
  -- transactions that were refunded, and the next cancellation asks billing for their refund once more.
  pub cancelled_between-refunds_twice :
      (t : String) (ts : List String)
      → ((n : ℕ) → env.refund_fault n ≡ none)
      → ((n : ℕ) → env.now n ≢ 0)
      → m.batch_repo ≡ true
      → m.job_repo ≡ true
      → m.billing ≡ true
      → b.billing_transaction_ids ≡ t ∷ ts
      → Distinct (jobs_of k w.jobs)
      → let after = (cancelled_between env m k w).1 in
        (c : Batch) × (stored k after ≡ some c)
        × (c.status
            ≡ (if all_settled (j ∷ js) then BatchStatus.completed else BatchStatus.processing))
        × (c.billing_transaction_ids ≡ t ∷ ts)
        × (refund_requests (set_cancelled env m k after).1.log
            ≡ (t ∷ ts) ∷ (t ∷ ts) ∷ refund_requests w.log)
  cancelled_between-refunds_twice t ts accepts clock mb mj hm e d =
      let stale = progress_of b (j ∷ js) seen_at in
      let (_, kept, asked) =
        set_cancelled-refunds env m (ticked (ticked w)) k b up mb s t ts accepts hm mj e d in
      let dated : stale.completed_at ≢ some 0 =
        ground (arith, clock (suc (suc w.calls)), stored-completed_at k w b s) in
      let saved =
        save_and_publish-stored env m after_cancel stale k _ (up _) dated (stored-id k w b s)
          kept in
      let written : World = (save_and_publish env m stale after_cancel).1 in
      let once : refund_requests written.log ≡ (t ∷ ts) ∷ refund_requests w.log =
        save_and_publish-log env m stale after_cancel ∙ asked in
      let twice = set_cancelled-asks env m written k _ up mb saved t ts accepts hm e in
      subst
        (λ u.
          (c : Batch) × (stored k u ≡ some c)
          × (c.status
              ≡ (if all_settled (j ∷ js) then BatchStatus.completed else BatchStatus.processing))
          × (c.billing_transaction_ids ≡ t ∷ ts)
          × (refund_requests (set_cancelled env m k u).1.log
              ≡ (t ∷ ts) ∷ (t ∷ ts) ∷ refund_requests w.log))
        (sym cancelled_between-steps) (_, saved, refl, e, twice ∙ ap (◌∷◌ (t ∷ ts)) once)
