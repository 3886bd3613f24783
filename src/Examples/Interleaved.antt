-- ===== src/Examples/Interleaved.antt =====
-- Requests that interleave, and the worker of the exporter.
use bulk.Base.{◌≡◌, refl, List, [], ◌∷◌, All, some, none, if◌then◌else◌}
use bulk.Domain.{Batch, BatchStatus, JobStatus}
use bulk.Postgres.RoundTrip.{stored}
use bulk.Manager.{set_cancelled}
use bulk.Manager.Cancel.{refund_requests}
use bulk.Manager.Progress.{all_settled}
use bulk.Manager.Races.{cancelled_between, cancelled_between-refunds_twice}
use bulk.Exporter.{Manager, Outcome, enqueue, enqueued, none_left, then_step}
use bulk.Exporter.Drain.{Round, work, IsSettled, work-IsSettled}
use bulk.Examples.{calm, paid, manager, paid_batch, paid-stored, job_rows-Distinct, suc_nonzero}
use bulk.Examples.Manager.{job_of, plain-listed}

cancelled_between-refunds_twice_example :
    let after = (cancelled_between calm manager "b" paid).1 in
    (c : Batch) × (stored "b" after ≡ some c)
    × (c.status ≡ (
        if all_settled (job_of "j1" JobStatus.failed ∷ job_of "j2" JobStatus.pending ∷ [])
        then BatchStatus.completed
        else BatchStatus.processing))
    × (c.billing_transaction_ids ≡ "t1" ∷ "t2" ∷ [])
    × (refund_requests (set_cancelled calm manager "b" after).1.log
        ≡ ("t1" ∷ "t2" ∷ []) ∷ ("t1" ∷ "t2" ∷ []) ∷ [])
cancelled_between-refunds_twice_example =
    cancelled_between-refunds_twice calm manager paid "b" paid_batch (job_of "j1" JobStatus.failed)
      (job_of "j2" JobStatus.pending ∷ []) (λ n. refl) paid-stored plain-listed "t1" ("t2" ∷ [])
      (λ n. refl) (λ n. suc_nonzero n) refl refl refl refl job_rows-Distinct

abbrev start : Manager
start = record { queue = []; capacity = 2; results = []; current = none }

-- The file of the first is stored, that of the second is not.
abbrev rounds : List Round
rounds =
    record { taken_at = 3; outcome = Outcome.stored_as "f1"; ended_at = 4 }
    ∷ record { taken_at = 5; outcome = Outcome.failed_with "no storage"; ended_at = 6 }
    ∷ []

work-IsSettled_example :
    let m = (enqueue "b" 2 (enqueue "a" 1 start).1).1 in
    ((work rounds m).queue ≡ [])
    × ((work rounds m).current ≡ none)
    × All (IsSettled (work rounds m).results) m.queue
unfolding enqueue
work-IsSettled_example =
    work-IsSettled start (enqueue "b" 2 (enqueue "a" 1 start).1).1 rounds refl
      (then_step start (enqueue "a" 1 start).1 _
        (then_step start start _ (none_left start) (enqueued "a" 1 start))
        (enqueued "b" 2 (enqueue "a" 1 start).1))
      refl refl
