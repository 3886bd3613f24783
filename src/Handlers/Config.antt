-- ===== src/Handlers/Config.antt =====
-- `HandleAdminUpdateBatchConfig`: PUT /admin/batches/{batchId}/config.
use bulk.Base.{ℕ, String, true, ◌≡◌, not, arith, Option, none, some, if◌then◌else◌, str_eq, eq_iff}
use bulk.Base.Int.{ℤ, pos, ltb_ℤ}
use bulk.Domain.{Batch}
use bulk.World.{World, Env, ok, err}
use bulk.Postgres.Repositories.{get_batch, save_batch}
use bulk.Postgres.Calls.{ticked, save_batch_up}
use bulk.Postgres.RoundTrip.{
  stored, get_batch-stored, stored-save_batch, stored-id, stored-completed_at,
}
use bulk.Handlers.Reply.{reply, Handler, ◌>>=◌, answer, fail, Deps}

-- `UpdateBatchConfigRequest`
pub record UpdateBatchConfigRequest : Type 0 where
  pub priority : String
  pub timeout : ℤ

pub record ConfigReply : Type 0 where
  pub batch_id : String
  pub priority : String
  pub timeout : ℤ

-- The batch with what the request sets: a priority that is not empty, a timeout above 0.
unfoldable pub configured : UpdateBatchConfigRequest → Batch → Batch
configured req b = record b {
  priority = if str_eq req.priority "" then b.priority else req.priority;
  timeout_ms = if ltb_ℤ (pos 0) req.timeout then req.timeout else b.timeout_ms;
}

save_config : Env → String → Batch → Handler ConfigReply
save_config env k b = do
  saved ← save_batch env b
  elim saved [
    | err e ↦ fail 500 "SERVICE_ERROR" "failed to update batch config"
    | ok _ ↦
        answer (reply 200 (record { batch_id = k; priority = b.priority; timeout = b.timeout_ms }))
  ]

update_config : Env → Deps → String → UpdateBatchConfigRequest → Handler ConfigReply
unfolding save_config configured
update_config env d k req =
    if not d.batch_repo then fail 404 "MISSING_DEPENDENCY" "batch repo not configured" else (do
      found ← get_batch env k
      elim found [
        | err e ↦ fail 500 "SERVICE_ERROR" "failed to fetch batch"
        | ok b ↦ save_config env k (configured req b)
      ])

-- `HandleAdminUpdateBatchConfig`, on a body that is decoded or not.
unfoldable pub handle_admin_update_batch_config :
    Env → Option Deps → String → Option UpdateBatchConfigRequest → Handler ConfigReply
unfolding update_config
handle_admin_update_batch_config env deps k none = fail 400 "VALIDATION_ERROR" "invalid body"
handle_admin_update_batch_config env none k (some req) =
    fail 404 "MISSING_DEPENDENCY" "batch repo not configured"
handle_admin_update_batch_config env (some d) k (some req) = update_config env d k req

-- With a store that answers, a client that sets a priority and a timeout is answered with them, but
-- the batch is stored without a priority and with the timeout 0, and otherwise as it was.
pub handle_admin_update_batch_config-stored :
    (env : Env) (d : Deps) (w : World) (k : String) (b : Batch) (req : UpdateBatchConfigRequest)
    → ((n : ℕ) → env.store_fault n ≡ none)
    → d.batch_repo ≡ true
    → stored k w ≡ some b
    → let r = handle_admin_update_batch_config env (some d) k (some req) w in
      let c = configured req b in
      (r.0 ≡ reply 200 (record { batch_id = k; priority = c.priority; timeout = c.timeout_ms }))
      × (stored k r.1 ≡ some (record b { priority = ""; timeout_ms = pos 0 }))
unfolding handle_admin_update_batch_config save_config configured
handle_admin_update_batch_config-stored env d w k b req up hb s = ground (
  arith,
  get_batch-stored env w k b (up _) s,
  save_batch_up env (ticked w) (up _) (configured req b),
  stored-save_batch env (ticked w) (configured req b) k (up _) (stored-completed_at k w b s),
  stored-id k w b s,
  eq_iff b.id k,
)
