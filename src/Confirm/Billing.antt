-- ===== src/Confirm/Billing.antt =====
-- `ConfirmBatch` as a whole, through the billing client: what it refuses, what it queues, and what a
-- later cancellation can give back.
use bulk.Base.{
  ℕ, suc, String, ◌≡◌, Bool, true, false, ◌&&◌, not, List, [], ◌∷◌, take, length, min, none, some,
  arith,
}
use bulk.Base.Int.{ℤ, pos, pos_part, ltb_ℤ}
use bulk.Domain.{Batch}
use bulk.World.{World, Env, Error, ok, err, exceeds_approved, blocked}
use bulk.Postgres.Tables.{jobs_of}
use bulk.Postgres.Calls.{ticked}
use bulk.Postgres.RoundTrip.{stored, get_batch-stored}
use bulk.Postgres.Sweep.{Distinct, ids, map_from}
use bulk.Confirm.{
  Service, no_hooks, confirm_batch, check_approved, read_batch, reserve, publish_batch,
}
use bulk.Confirm.Steps.{sent_jobs, push_all, queue_step}
use bulk.Confirm.Queue.{publish_batch-queues}
use bulk.Manager.{BatchManager, set_cancelled}
use bulk.Manager.Cancel.{refund_requests, set_cancelled_nothing_reserved}

-- Whether `count` is within the approved count, if there is one.
abbrev pub is_approved : Batch → ℤ → Bool
is_approved b count = not (ltb_ℤ (pos 0) b.approved_count && ltb_ℤ b.approved_count count)

-- The world after a call to billing has been made and recorded.
abbrev after_block : World → String → ℤ → World
after_block w k count = record w { calls = suc (suc w.calls); log = blocked "" count k ∷ w.log }

module _ (env : Env) (s : Service) (w : World) (k : String) (b : Batch) (count : ℤ)
    (up : (n : ℕ) → env.store_fault n ≡ none) (repo : s.batch_repo ≡ true)
    (st : stored k w ≡ some b) where
  reading : read_batch env s no_hooks k w ≡ (ok (ok b), ticked w)
  unfolding read_batch
  reading = ground (arith, get_batch-stored env w k b (up _) st)

  -- A request beyond the approved count is refused: nothing is asked of billing, nothing is published,
  -- and no row changes.
  pub confirm_batch_exceeds :
      is_approved b count ≡ false
      → confirm_batch env s no_hooks k count w
        ≡ (err (exceeds_approved count b.approved_count), ticked w)
  unfolding confirm_batch check_approved
  confirm_batch_exceeds h = ground (arith, reading)

  -- Where billing refuses, the request fails with billing's error: billing has been asked once,
  -- nothing is published, and no row changes.
  pub confirm_batch_unpaid :
      (e : Error)
      → is_approved b count ≡ true
      → s.billing ≡ true
      → env.block_reply (suc w.calls) ≡ err e
      → confirm_batch env s no_hooks k count w ≡ (err e, after_block w k count)
  unfolding confirm_batch check_approved reserve
  confirm_batch_unpaid e h hm r = ground (arith, reading)

  confirm_batch_paid :
      (txs : List String)
      → is_approved b count ≡ true
      → s.billing ≡ true
      → env.block_reply (suc w.calls) ≡ ok (some txs)
      → confirm_batch env s no_hooks k count w
        ≡ publish_batch env s no_hooks k count txs (after_block w k count)
  unfolding confirm_batch check_approved reserve
  confirm_batch_paid txs h hm r = ground (arith, reading)

  -- A request within the approved count, for which billing reserves `txs`, with a store and a Kafka
  -- that answer: exactly the first `count` jobs of the batch are queued, each with the transaction
  -- assigned to it, its other jobs and every batch stay as they were, one event is published for each
  -- queued job, in the order of the jobs, and their number is returned.
  pub confirm_batch-queues :
      (txs : List String)
      → ((n : ℕ) → env.publish_fault n ≡ none)
      → s.producer ≡ true
      → s.job_repo ≡ true
      → s.billing ≡ true
      → is_approved b count ≡ true
      → env.block_reply (suc w.calls) ≡ ok (some txs)
      → Distinct (jobs_of k w.jobs)
      → let r = confirm_batch env s no_hooks k count w in
        let rows = jobs_of k w.jobs in
        (r.0 ≡ ok (min (length rows) (pos_part count)))
        × (jobs_of k r.1.jobs ≡ map_from (queue_step env txs count) 0 rows)
        × (r.1.batches ≡ w.batches)
        × (sent_jobs r.1.log ≡ push_all (take (pos_part count) (ids rows)) (sent_jobs w.log))
  confirm_batch-queues txs sends producer hj hm h r d =
      rw (confirm_batch_paid txs h hm r)
        (publish_batch-queues env s up sends producer (after_block w k count) k count txs hj d)

  -- What such a request has reserved is never given back: cancelling the batch afterwards asks for no
  -- refund, whatever transactions billing has reserved for it.
  pub cancel_after_confirm :
      (m : BatchManager) (txs : List String)
      → ((n : ℕ) → env.publish_fault n ≡ none)
      → s.producer ≡ true
      → s.job_repo ≡ true
      → s.billing ≡ true
      → is_approved b count ≡ true
      → env.block_reply (suc w.calls) ≡ ok (some txs)
      → Distinct (jobs_of k w.jobs)
      → m.batch_repo ≡ true
      → b.billing_transaction_ids ≡ []
      → let confirmed = (confirm_batch env s no_hooks k count w).1 in
        refund_requests (set_cancelled env m k confirmed).1.log ≡ refund_requests confirmed.log
  cancel_after_confirm m txs sends producer hj hm h r d hb e =
      let (_, _, kept, _) = confirm_batch-queues txs sends producer hj hm h r d in
      set_cancelled_nothing_reserved env m (confirm_batch env s no_hooks k count w).1 k b up hb
        (rw kept st) e
