-- ===== src/Manager.antt =====
-- internal/batch/manager.go: the life cycle of a batch. Logging and metrics are left out.
pub mod Saves
pub mod Refund
pub mod Cancel
pub mod Finalize
pub mod Progress
pub mod Processing
pub mod Log
pub mod Silent
pub mod Races
use bulk.Base.{
  ℕ, ◌+◌, String, Bool, true, false, ◌&&◌, ◌||◌, not, List, [], ◌∷◌, length, Option, none, some,
  if◌then◌else◌, str_eq, ◌==◌,
}
use bulk.Base.Int.{ℤ, pos, ◌-ℤ◌, ◌*ℤ◌, ltb_ℤ}
use bulk.Domain.{Batch, Job, BatchStatus, JobStatus}
use bulk.World.{
  World, Env, Action, Result, ok, err, Ratio, StatusEvent, status_event, partial_available,
  batch_refunded, batch_repo_not_configured, repos_not_configured, pure, raise, attempt, ignore,
  gets, Quote, ◌>>=◌, ◌>>◌,
}
use bulk.Postgres.Repositories.{get_batch, save_batch, get_jobs, update_status}
use bulk.Outside.{publish, quote, refund_transactions}

-- `BatchManager`: which of its parts are set, and the topics of its producer and its tagger.
pub record BatchManager : Type 0 where
  pub batch_repo : Bool
  pub job_repo : Bool
  pub billing : Bool
  pub history : Bool
  pub producer : Bool
  pub bulk_status_topic : String
  pub history_topic : String

-- `pending := total - completed - failed`, and 0 where that is negative
unfoldable pub shown_pending : ℤ → ℤ → ℤ → ℤ
unfolding ◌-ℤ◌
shown_pending total completed failed =
    let pending = total -ℤ completed -ℤ failed in if ltb_ℤ pending (pos 0) then pos 0 else pending

unfoldable pub percent : ℤ → ℤ → Ratio
unfolding ◌*ℤ◌
percent total completed =
    if ltb_ℤ (pos 0) total
    then record { num = completed *ℤ pos 100; den = total }
    else record { num = pos 0; den = pos 1 }

-- The event that `publishStatus` builds.
pub status_of : Batch → StatusEvent
unfolding shown_pending percent
status_of b = record {
  batch_id = b.id;
  status = b.status;
  total = b.total_rows;
  completed = b.completed_count;
  failed = b.failed_count;
  pending = shown_pending b.total_rows b.completed_count b.failed_count;
  percent_complete = percent b.total_rows b.completed_count;
}

-- The statuses that `SetCancelled` refunds and `OnJobStatusChange` counts as pending by name.
abbrev pub is_open : JobStatus → Bool
is_open JobStatus.pending = true
is_open JobStatus.queued = true
is_open JobStatus.processing = true
is_open _ = false

-- The counters of `OnJobStatusChange`.
pub record Tally : Type 0 where
  pub pending : ℕ
  pub completed : ℕ
  pub failed : ℕ

abbrev pub count_job : JobStatus → Tally → Tally
count_job JobStatus.completed t = record t { completed = t.completed + 1 }
count_job JobStatus.refunded t = record t { completed = t.completed + 1 }
count_job JobStatus.failed t = record t { completed = t.completed + 1; failed = t.failed + 1 }
count_job _ t = record t { pending = t.pending + 1 }

pub tally_from : Tally → List Job → Tally
tally_from t [] = t
tally_from t (j ∷ js) = tally_from (count_job j.status t) js

pub tally : List Job → Tally
unfolding tally_from
tally = tally_from (record { pending = 0; completed = 0; failed = 0 })

pub count_refunded_from : ℕ → List Job → ℕ
count_refunded_from n [] = n
count_refunded_from n (j ∷ js) =
    count_refunded_from (elim j.status [ JobStatus.refunded ↦ n + 1 | _ ↦ n ]) js

-- `err == nil && qr != nil && qr.AllowedTotal < validRows`, with the allowed total
pub partial_quote : Result (Option Quote) → ℤ → Option ℤ
partial_quote (ok (some q)) valid =
    if ltb_ℤ q.allowed_total valid then some q.allowed_total else none
partial_quote _ valid = none

-- The batch of `OnJobStatusChange` before it is saved.
pub progressed : Batch → Tally → ℕ → Batch
progressed b t now =
    if t.pending == 0
    then record b {
      completed_count = pos t.completed;
      failed_count = pos t.failed;
      status = BatchStatus.completed;
      completed_at = some now;
    }
    else record b {
      completed_count = pos t.completed;
      failed_count = pos t.failed;
      status = BatchStatus.processing;
    }

abbrev has_transactions : List String → Bool
has_transactions [] = false
has_transactions (_ ∷ _) = true

module _ (env : Env) (m : BatchManager) where
  -- `publishStatus`
  pub publish_status : Batch → Action (Unit {0})
  unfolding status_of
  publish_status b =
      if not m.producer || str_eq m.bulk_status_topic ""
      then pure tt
      else ignore (publish env m.bulk_status_topic (status_event (status_of b)))

  -- The end of most methods: the update, and the event.
  pub save_and_publish : Batch → Action (Unit {0})
  unfolding publish_status
  save_and_publish b = do save_batch env b; publish_status b

  finalize_partial : Batch → ℤ → ℤ → Action (Unit {0})
  unfolding save_and_publish
  finalize_partial b allowed valid = do
    if m.history
        then ignore (publish env m.history_topic (partial_available b.id allowed valid))
        else pure tt
    save_and_publish (record b { status = BatchStatus.partial_available; approved_count = allowed })

  -- What follows the answer of billing; an error, or no billing, counts as no answer.
  finalize_quoted : Batch → ℤ → Result (Option Quote) → Action (Unit {0})
  unfolding finalize_partial save_and_publish partial_quote
  finalize_quoted b valid reply = elim (partial_quote reply valid) [
    | some allowed ↦ finalize_partial b allowed valid
    | none ↦ save_and_publish (record b { status = BatchStatus.ready })
  ]

  -- `FinalizeAfterUpload` on a batch with no invalid rows.
  finalize_valid : Batch → ℤ → Action (Unit {0})
  unfolding finalize_quoted
  finalize_valid b valid = do
    reply ← (if m.billing then attempt (quote env b.user_id valid) else pure (ok none))
    finalize_quoted b valid reply

  -- `FinalizeAfterUpload`
  pub finalize_after_upload : String → ℤ → ℤ → Action (Unit {0})
  unfolding finalize_valid save_and_publish
  finalize_after_upload k valid invalid =
      if not m.batch_repo then raise batch_repo_not_configured else (do
        found ← get_batch env k
        let b = record found { valid_rows = valid }
        if ltb_ℤ (pos 0) invalid
            then save_and_publish (record b { status = BatchStatus.validation_errors })
            else finalize_valid b valid)

  -- `SetProcessing`
  pub set_processing : String → Action (Unit {0})
  unfolding save_and_publish
  set_processing k =
      if not m.batch_repo
      then raise batch_repo_not_configured
      else (do b ← get_batch env k; save_and_publish (record b { status = BatchStatus.processing }))

  -- The loop of `SetCancelled` that marks the open jobs as refunded.
  pub refund_jobs : List Job → Action (Unit {0})
  refund_jobs [] = pure tt
  refund_jobs (j ∷ js) = do
    if is_open j.status then ignore (update_status env j.id JobStatus.refunded) else pure tt
    refund_jobs js

  -- What follows a refund that billing has accepted.
  pub settle_refund : String → Batch → Action (Unit {0})
  unfolding refund_jobs
  settle_refund k b = do
    listed ← (if m.job_repo then attempt (get_jobs env k) else pure (ok []))
    elim listed [ ok jobs ↦ refund_jobs jobs | err e ↦ pure tt ]
    ignore (save_batch env (record b { billing_transaction_ids = [] }))
    if m.history
        then ignore (publish env m.history_topic (batch_refunded k b.billing_transaction_ids))
        else pure tt

  -- What follows the answer of billing; on an error only a line is logged.
  pub refund_answered : String → Batch → Result (Unit {0}) → Action (Unit {0})
  unfolding settle_refund
  refund_answered k b (ok _) = settle_refund k b
  refund_answered k b (err e) = pure tt

  pub refund_batch : String → Batch → Action (Unit {0})
  refund_batch k b =
      if m.billing && has_transactions b.billing_transaction_ids
      then (do
        reply ← attempt (refund_transactions env b.user_id b.billing_transaction_ids k)
        refund_answered k b reply)
      else pure tt

  pub count_refunded : String → Action ℕ
  unfolding count_refunded_from
  count_refunded k = do
    listed ← (if m.job_repo then attempt (get_jobs env k) else pure (ok []))
    elim listed [ ok jobs ↦ pure (count_refunded_from 0 jobs) | err e ↦ pure 0 ]

  -- `SetCancelled`
  pub set_cancelled : String → Action ℕ
  unfolding save_and_publish refund_batch count_refunded
  set_cancelled k = if not m.batch_repo then raise batch_repo_not_configured else (do
    found ← get_batch env k
    let b = record found { status = BatchStatus.cancelled }
    save_and_publish b
    refund_batch k b
    count_refunded k)

  -- `OnJobStatusChange` past the test for a batch with no jobs.
  update_progress : String → List Job → Action (Unit {0})
  unfolding save_and_publish tally progressed
  update_progress k jobs = do
    b ← get_batch env k
    n ← gets (λ w. w.calls)
    save_and_publish (progressed b (tally jobs) (env.now n))

  -- `OnJobStatusChange`
  pub on_job_status_change : String → Action (Unit {0})
  unfolding update_progress
  on_job_status_change k =
      if not m.batch_repo || not m.job_repo then raise repos_not_configured else (do
        jobs ← get_jobs env k
        elim jobs [ [] ↦ pure tt | j ∷ js ↦ update_progress k (j ∷ js) ])
