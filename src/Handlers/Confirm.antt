-- ===== src/Handlers/Confirm.antt =====
-- `HandleConfirm`: POST /batch/{id}/confirm.
pub mod Answer
use bulk.Base.{
  ℕ, suc, ◌+◌, ◌*◌, String, Bool, true, false, List, [], ◌∷◌, length, Option, none, some,
  if◌then◌else◌, str_eq,
}
use bulk.Base.Int.{ℤ, pos, ltb_ℤ}
use bulk.Domain.{Job, JobStatus}
use bulk.World.{Env, Result, ok, err, JobEvent, job_event}
use bulk.Postgres.Repositories.{get_batch, get_jobs, update_status}
use bulk.Outside.{publish, block_batch}
use bulk.Confirm.{Service, no_hooks, confirm_batch}
use bulk.Handlers.Reply.{
  Reply, reply, Run, Handler, ◌>>=◌, ◌>>◌, answer, fail, Deps, bulk_job_topic,
}
use bulk.Handlers.Told.{tell_manager}

-- `ConfirmRequest`
pub record ConfirmRequest : Type 0 where
  pub action : String
  pub count : Option ℤ

-- The answer 202; its status is always "processing".
pub record Accepted : Type 0 where
  pub batch_id : String
  pub jobs_queued : ℕ
  pub estimated_seconds : ℕ

-- `respondAcceptedProcessing`, with 3 seconds for each job
unfoldable pub accepted : String → ℕ → Handler Accepted
accepted k queued =
    answer
      (reply 202 (record { batch_id = k; jobs_queued = queued; estimated_seconds = queued * 3 }))

-- The event of a job where there is no service: it names neither a user nor a revision, and has none
-- of the job's fields.
unfoldable pub bare_event : Job → JobEvent
bare_event j = record {
  job_id = j.id;
  batch_id = j.batch_id;
  user_id = "";
  build_id = "";
  row_number = j.row_number;
  revision = "";
  fields = [];
  billing_pre_approved = false;
  transaction_id = none;
}

module _ (env : Env) (d : Deps) where
  job_count : String → Run ℤ
  job_count k =
      if d.job_repo
      then (do
        listed ← get_jobs env k
        answer (elim listed [ ok jobs ↦ pos (length jobs) | err e ↦ pos 0 ]))
      else answer (pos 0)

  rows_to_generate : String → Run ℤ
  rows_to_generate k =
      if d.batch_repo
      then (do found ← get_batch env k; answer (elim found [ ok b ↦ b.valid_rows | err e ↦ pos 0 ]))
      else answer (pos 0)

  -- The number of rows that a request asks for; `none` for an action that is not supported, and for
  -- a partial generation without a count.
  unfoldable pub wanted_count : String → ConfirmRequest → Run (Option ℤ)
  unfolding job_count rows_to_generate
  wanted_count k req =
      if str_eq req.action "generate_all"
      then (do n ← job_count k; answer (some n))
      else if str_eq req.action "generate_partial"
      then answer req.count
      else if str_eq req.action "generate_valid"
      then (do n ← rows_to_generate k; answer (some n))
      else answer none

  -- The loop that publishes where there is no service. A job is set to queued also where its event
  -- could not be published.
  pub queue_jobs : ℤ → ℕ → ℕ → List Job → Run ℕ
  unfolding bare_event bulk_job_topic
  queue_jobs count i queued [] = answer queued
  queue_jobs count i queued (j ∷ js) =
      if ltb_ℤ (pos i) count
      then (do
        publish env (bulk_job_topic d) (job_event (bare_event j))
        updated ← update_status env j.id JobStatus.queued
        let queued' : ℕ = elim updated [ ok _ ↦ suc queued | err e ↦ queued ]
        queue_jobs count (suc i) queued' js)
      else answer queued

  -- What follows billing where there is no service.
  pub queue_batch : String → ℤ → Handler Accepted
  unfolding queue_jobs accepted
  queue_batch k count = do
    tell_manager env d k
    queued ←
        (if d.job_repo
          then (if d.producer
              then (do
                listed ← get_jobs env k
                elim listed [ ok jobs ↦ queue_jobs count 0 0 jobs | err e ↦ answer 0 ])
              else answer 0)
          else answer 0)
    accepted k queued

  -- The part of the handler where there is no service.
  confirm_bare : String → ℤ → Handler Accepted
  unfolding queue_batch
  confirm_bare k count =
      if d.billing
      then (do
        reserved ← block_batch env "" count k
        elim reserved [
          | err e ↦ fail 402 "INSUFFICIENT_FUNDS" "billing block failed"
          | ok _ ↦ queue_batch k count
        ])
      else queue_batch k count

  confirm_count : String → ℤ → Handler Accepted
  unfolding confirm_bare accepted
  confirm_count k count = elim d.service [
    | none ↦ confirm_bare k count
    | some s ↦ (do
      outcome ← confirm_batch env s no_hooks k count
      elim outcome [
        | err e ↦ fail 402 "INSUFFICIENT_FUNDS" "billing block failed"
        | ok queued ↦ accepted k queued
      ])
  ]

-- The actions of which gin's binding admits one.
unfoldable pub known_action : String → Bool
known_action a =
    if str_eq a "generate_all"
    then true
    else if str_eq a "generate_partial"
    then true
    else if str_eq a "generate_valid"
    then true
    else str_eq a "cancel"

-- `HandleConfirm`, on a body that is decoded or not.
unfoldable pub handle_confirm :
    Env → Option Deps → String → Option ConfirmRequest → Handler Accepted
unfolding confirm_count
handle_confirm env none k body = fail 500 "SERVER_ERROR" "service unavailable"
handle_confirm env (some d) k none = fail 400 "VALIDATION_ERROR" "invalid body"
handle_confirm env (some d) k (some req) =
    if known_action req.action
    then (do
      wanted ← wanted_count env d k req
      elim wanted [
        | none ↦ fail 400 "VALIDATION_ERROR" "unsupported action"
        | some count ↦ confirm_count env d k count
      ])
    else fail 400 "VALIDATION_ERROR" "invalid body"
