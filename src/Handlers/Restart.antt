-- ===== src/Handlers/Restart.antt =====
-- `HandleAdminRestartBatch`: POST /admin/batches/{batchId}/restart.
pub mod Answer
use bulk.Base.{
  ℕ, suc, ◌+◌, String, Bool, true, false, ◌&&◌, not, List, [], ◌∷◌, Option, none, some,
  if◌then◌else◌, str_eq,
}
use bulk.Domain.{Job, JobStatus}
use bulk.World.{Env, Result, ok, err, Error, JobEvent, job_event}
use bulk.Postgres.Repositories.{get_jobs, update_status}
use bulk.Outside.{publish}
use bulk.Handlers.Reply.{
  Reply, reply, Run, Handler, ◌>>=◌, ◌>>◌, answer, fail, Deps, bulk_job_topic, require_batch,
}
use bulk.Handlers.Told.{tell_manager}

-- `RestartRequest`
pub record RestartRequest : Type 0 where
  pub restart_mode : String
  pub force : Bool

pub record RestartReply : Type 0 where
  pub restarted : ℕ
  pub skipped : ℕ

abbrev pub is_failed : JobStatus → Bool
is_failed JobStatus.failed = true
is_failed _ = false

-- The event of a restarted job has its ids and its row number only.
unfoldable pub restart_event : Job → JobEvent
restart_event j = record {
  job_id = j.id;
  batch_id = j.batch_id;
  user_id = "";
  build_id = "";
  row_number = j.row_number;
  revision = "";
  fields = [];
  billing_pre_approved = false;
  transaction_id = none;
}

abbrev pub skip_one : RestartReply → RestartReply
skip_one c = record c { skipped = suc c.skipped }

abbrev pub restart_one : RestartReply → RestartReply
restart_one c = record c { restarted = suc c.restarted }

module _ (env : Env) (d : Deps) where
  send_restart : Job → Run (Result (Unit {0}))
  unfolding restart_event bulk_job_topic
  send_restart j =
      if d.producer
      then publish env (bulk_job_topic d) (job_event (restart_event j))
      else answer (ok tt)

  -- A failed job of the loop.
  pub restart_job : RestartReply → Job → Run RestartReply
  unfolding send_restart
  restart_job c j = do
    sent ← send_restart j
    elim sent [
      | err e ↦ answer (skip_one c)
      | ok _ ↦ (do
        updated ← update_status env j.id JobStatus.queued
        answer (elim updated [ ok _ ↦ restart_one c | err e ↦ skip_one c ]))
    ]

  -- The loop over the jobs.
  pub restart_jobs : RestartReply → List Job → Run RestartReply
  unfolding restart_job
  restart_jobs c [] = answer c
  restart_jobs c (j ∷ js) = do
    next ← if is_failed j.status then restart_job c j else answer (skip_one c)
    restart_jobs next js

  -- The handler past its tests.
  pub restart_batch : String → Handler RestartReply
  unfolding restart_jobs
  restart_batch k = do
    listed ← get_jobs env k
    elim listed [
      | err e ↦ fail 500 "SERVICE_ERROR" "failed to fetch jobs"
      | ok jobs ↦ (do
        counts ← restart_jobs (record { restarted = 0; skipped = 0 }) jobs
        tell_manager env d k
        answer (reply 200 counts))
    ]

-- `HandleAdminRestartBatch`, on a body that is decoded or not; gin's binding admits one mode only.
unfoldable pub handle_admin_restart_batch :
    Env → Option Deps → String → Option RestartRequest → Handler RestartReply
unfolding restart_batch require_batch
handle_admin_restart_batch env deps k none = fail 400 "VALIDATION_ERROR" "invalid body"
handle_admin_restart_batch env none k (some req) =
    if str_eq req.restart_mode "failed_only"
    then fail 404 "MISSING_DEPENDENCY" "required dependency not configured"
    else fail 400 "VALIDATION_ERROR" "invalid body"
handle_admin_restart_batch env (some d) k (some req) =
    if not (str_eq req.restart_mode "failed_only")
    then fail 400 "VALIDATION_ERROR" "invalid body"
    else if not (d.batch_repo && d.job_repo)
    then fail 404 "MISSING_DEPENDENCY" "required dependency not configured"
    else require_batch env (some d) k (λ b. restart_batch env d k)
