-- ===== src/Manager/Saves.antt =====
-- What the shared end of the manager's methods leaves in the store.
use bulk.Base.{ℕ, String, ◌≡◌, ◌≢◌, none, some, arith, ◌∙◌, eq_iff}
use bulk.Domain.{Batch}
use bulk.World.{World, Env, ok}
use bulk.Postgres.Calls.{save_batch_up}
use bulk.Postgres.RoundTrip.{stored, saved_over, stored-save_batch, stored-id, stored-completed_at}
use bulk.Postgres.Repositories.{save_batch}
use bulk.Manager.{BatchManager, publish_status, save_and_publish}

module _ (env : Env) (m : BatchManager) (w : World) where
  -- Publishing leaves the tables alone.
  pub publish_status-batches : (b : Batch) → (publish_status env m b w).1.batches ≡ w.batches
  unfolding publish_status
  publish_status-batches b = ground arith

  pub publish_status-jobs : (b : Batch) → (publish_status env m b w).1.jobs ≡ w.jobs
  unfolding publish_status
  publish_status-jobs b = ground arith

pub save_and_publish-stored :
    (env : Env) (m : BatchManager) (w : World) (b : Batch) (k : String) (old : Batch)
    → env.store_fault w.calls ≡ none
    → b.completed_at ≢ some 0
    → b.id ≡ k
    → stored k w ≡ some old
    → stored k (save_and_publish env m b w).1 ≡ some (saved_over old b)
unfolding save_and_publish
save_and_publish-stored env m w b k old up h e s = ground (
  arith,
  save_batch_up env w up b,
  publish_status-batches env m (save_batch env b w).1 b,
  stored-save_batch env w b k up h,
  eq_iff b.id k,
)

-- The same for a changed copy of the batch that is stored, from any state with the same table.
pub save_and_publish-changed :
    (env : Env) (m : BatchManager) (w u : World) (k : String) (b c : Batch)
    → ((n : ℕ) → env.store_fault n ≡ none)
    → stored k w ≡ some b
    → u.batches ≡ w.batches
    → c.id ≡ b.id
    → c.completed_at ≡ b.completed_at
    → stored k (save_and_publish env m c u).1 ≡ some (saved_over b c)
save_and_publish-changed env m w u k b c up s same key at =
    save_and_publish-stored env m u c k b (up u.calls) (rw at (stored-completed_at k w b s))
      (key ∙ stored-id k w b s) (rw same s)

pub save_and_publish-ok :
    (env : Env) (m : BatchManager) (w : World) (b : Batch)
    → env.store_fault w.calls ≡ none
    → (save_and_publish env m b w).0 ≡ ok tt
unfolding save_and_publish
save_and_publish-ok env m w b up = ground (arith, save_batch_up env w up b)

pub save_and_publish-jobs :
    (env : Env) (m : BatchManager) (w : World) (b : Batch)
    → (save_and_publish env m b w).1.jobs ≡ w.jobs
unfolding save_and_publish save_batch
save_and_publish-jobs env m w b = ground arith
