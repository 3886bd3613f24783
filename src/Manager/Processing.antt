-- ===== src/Manager/Processing.antt =====
-- `SetProcessing`.
use bulk.Base.{ℕ, String, ◌≡◌, refl, true, some, none, arith}
use bulk.Domain.{Batch, BatchStatus}
use bulk.World.{World, Env}
use bulk.Postgres.Calls.{ticked}
use bulk.Postgres.RoundTrip.{stored, saved_over, get_batch-stored}
use bulk.Postgres.Repositories.{get_batch, save_batch}
use bulk.Confirm.Steps.{sent_jobs}
use bulk.Manager.{BatchManager, set_processing, save_and_publish, publish_status}
use bulk.Manager.Saves.{save_and_publish-changed}

-- With a store that answers, the batch is stored as processing.
pub set_processing-stored :
    (env : Env) (m : BatchManager) (w : World) (k : String) (b : Batch)
    → ((n : ℕ) → env.store_fault n ≡ none)
    → m.batch_repo ≡ true
    → stored k w ≡ some b
    → stored k (set_processing env m k w).1
      ≡ some (saved_over b (record b { status = BatchStatus.processing }))
unfolding set_processing
set_processing-stored env m w k b up hb s = ground (
  arith,
  get_batch-stored env w k b (up _) s,
  save_and_publish-changed env m w (ticked w) k b (record b { status = BatchStatus.processing }) up
      s refl refl refl,
)

-- Whatever fails, the jobs and the published jobs stay as they were.
pub set_processing-jobs :
    (env : Env) (m : BatchManager) (k : String) (w : World)
    → ((set_processing env m k w).1.jobs ≡ w.jobs)
      × (sent_jobs (set_processing env m k w).1.log ≡ sent_jobs w.log)
unfolding set_processing save_and_publish publish_status get_batch save_batch
set_processing-jobs env m k w = ground arith
