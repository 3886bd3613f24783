-- ===== src/Handlers/Cancel.antt =====
-- `HandleCancel`: POST /batch/{id}/cancel.
pub mod Answer
use bulk.Base.{ℕ, ◌+◌, String, true, false, List, [], ◌∷◌, Option, none, some, if◌then◌else◌}
use bulk.Domain.{Job, JobStatus}
use bulk.World.{Env, ok, err}
use bulk.Postgres.Repositories.{get_batch, get_jobs}
use bulk.Manager.{is_open, set_cancelled}
use bulk.Handlers.Reply.{Reply, reply, Run, Handler, ◌>>=◌, ◌>>◌, answer, fail, Deps}

-- The answer; its status is always "cancelled".
pub record CancelReply : Type 0 where
  pub batch_id : String
  pub pending : ℕ
  pub refunded : ℕ
  pub transaction_ids : List String

-- The loop that counts the jobs that are pending, queued or in progress.
count_open_from : ℕ → List Job → ℕ
count_open_from n [] = n
count_open_from n (j ∷ js) = count_open_from (if is_open j.status then n + 1 else n) js

module _ (env : Env) where
  -- The transactions of the batch before it is cancelled.
  pub reserved_before : Deps → String → Run (List String)
  reserved_before d k =
      if d.batch_repo
      then (do
        found ← get_batch env k
        answer (elim found [ ok b ↦ b.billing_transaction_ids | err e ↦ [] ]))
      else answer []

  -- The open jobs of the batch before it is cancelled.
  pub open_before : Deps → String → Run ℕ
  unfolding count_open_from
  open_before d k =
      if d.job_repo
      then (do
        listed ← get_jobs env k
        answer (elim listed [ ok jobs ↦ count_open_from 0 jobs | err e ↦ 0 ]))
      else answer 0

  -- `HandleCancel`; with no manager nothing is cancelled.
  unfoldable pub handle_cancel : Option Deps → String → Handler CancelReply
  unfolding reserved_before open_before
  handle_cancel none k =
      answer (reply 200 (record { batch_id = k; pending = 0; refunded = 0; transaction_ids = [] }))
  handle_cancel (some d) k = do
    txs ← reserved_before d k
    pending ← open_before d k
    elim d.batch_manager [
      | none ↦
          answer
            (reply 200 (record { batch_id = k; pending = 0; refunded = 0; transaction_ids = [] }))
      | some m ↦ (do
        outcome ← set_cancelled env m k
        elim outcome [
          | err e ↦ fail 500 "SERVICE_ERROR" "failed to cancel batch"
          | ok n ↦ answer (
              reply 200
                (record { batch_id = k; pending = pending; refunded = n; transaction_ids = txs }))
        ])
    ]
