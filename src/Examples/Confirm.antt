-- ===== src/Examples/Confirm.antt =====
-- The confirmation of a batch.
use bulk.Base.{
  ℕ, String, List, Bool, ◌≡◌, ◌<◌, ◌⊎◌, refl, [], ◌∷◌, ◌++◌, take, drop, length, some, none,
  if◌then◌else◌, ◌==◌,
}
use bulk.Base.Int.{pos}
use bulk.World.{Env, outside, ok}
use bulk.Postgres.Tables.{jobs_of}
use bulk.Postgres.Sweep.{map_from}
use bulk.Manager.{set_cancelled}
use bulk.Manager.Cancel.{refund_requests}
use bulk.Confirm.{no_hooks, confirm_batch, publish_batch}
use bulk.Confirm.Rollback.{refund_step}
use bulk.Confirm.Tries.{try_step, taken}
use bulk.Confirm.Failed.{publish_batch-tries}
use bulk.Domain.{BatchStatus}
use bulk.Postgres.RoundTrip.{stored, saved_over}
use bulk.Confirm.Steps.{queue_step, sent_jobs, push_all}
use bulk.Confirm.Billing.{confirm_batch-queues, cancel_after_confirm}
use bulk.Examples.{
  calm, plain, service, manager, plain_batch, plain-stored, job_rows, job_rows-Distinct,
}

-- One of the two jobs is queued, and published.
confirm_batch-queues_example :
    let r = confirm_batch calm service no_hooks "b" (pos 1) plain in
    (r.0 ≡ ok 1)
    × (jobs_of "b" r.1.jobs ≡ map_from (queue_step calm ("t1" ∷ "t2" ∷ []) (pos 1)) 0 job_rows)
    × (r.1.batches ≡ plain.batches)
    × (sent_jobs r.1.log ≡ "j1" ∷ [])
unfolding jobs_of
confirm_batch-queues_example =
    confirm_batch-queues calm service plain "b" plain_batch (pos 1) (λ n. refl) refl plain-stored
      ("t1" ∷ "t2" ∷ []) (λ n. refl) refl refl refl refl refl job_rows-Distinct

cancel_after_confirm_example :
    refund_requests
      (set_cancelled calm manager "b"
        (confirm_batch calm service no_hooks "b" (pos 2) plain).1).1.log
    ≡ refund_requests (confirm_batch calm service no_hooks "b" (pos 2) plain).1.log
cancel_after_confirm_example =
    cancel_after_confirm calm service plain "b" plain_batch (pos 2) (λ n. refl) refl plain-stored
      manager ("t1" ∷ "t2" ∷ []) (λ n. refl) refl refl refl refl refl job_rows-Distinct refl refl

-- Kafka refuses the event of the first job, and takes that of the second one.
abbrev flaky : Env
flaky = record calm { publish_fault = λ n. if n == 3 then some (outside "broker") else none }

publish_batch-tries_example :
    let r = publish_batch flaky service no_hooks "b" (pos 2) ("t1" ∷ "t2" ∷ []) plain in
    let due : List String = "j1" ∷ "j2" ∷ [] in
    (took : ℕ → Bool) × (let n = length (taken took 0 due) in
      let tried = map_from (try_step flaky took ("t1" ∷ "t2" ∷ []) (pos 2)) 0 job_rows in
      (r.0 ≡ ok n)
      × (sent_jobs r.1.log ≡ push_all (taken took 0 due) [])
      × (((n ≡ 2)
            × (jobs_of "b" r.1.jobs ≡ tried)
            × (r.1.batches ≡ plain.batches)
            × (refund_requests r.1.log ≡ []))
          ⊎ ((n < 2)
              × (jobs_of "b" r.1.jobs
                  ≡ take n tried ++ map_from (refund_step (pos 2)) n (drop n tried))
              × (stored "b" r.1
                  ≡ some (
                      saved_over plain_batch
                        (record plain_batch { status = BatchStatus.cancelled })))
              × (refund_requests r.1.log ≡ ("t1" ∷ "t2" ∷ []) ∷ []))))
unfolding jobs_of
publish_batch-tries_example =
    publish_batch-tries flaky service "b" (pos 2) ("t1" ∷ "t2" ∷ []) plain plain_batch (λ n. refl)
      refl refl refl plain-stored job_rows-Distinct
