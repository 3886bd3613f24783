-- ===== src/Manager/Silent.antt =====
-- The methods of a manager that has no topic for its status events.
use bulk.Base.{
  Bool-cases, String, ◌≡◌, refl, inl, inr, List, [], ◌∷◌, Option, none, arith, Option-cases,
}
use bulk.Base.Int.{ℤ}
use bulk.Domain.{Batch, Job, BatchStatus}
use bulk.World.{
  World, Env, Event, StatusEvent, Result, Quote, published, status_event, Result-cases, ok,
  partial_available,
}
use bulk.Postgres.Repositories.{get_batch, get_jobs, save_batch}
use bulk.Postgres.Calls.{ticked}
use bulk.Outside.{publish, quote, refund_transactions}
use bulk.Manager.{
  BatchManager, publish_status, save_and_publish, partial_quote, finalize_partial, finalize_quoted,
  finalize_valid, finalize_after_upload, set_processing, settle_refund, refund_answered,
  refund_batch, set_cancelled, update_progress, on_job_status_change, progressed, tally,
}
use bulk.Manager.Cancel.{refund_jobs-log, count_refunded-log}
use bulk.Manager.Progress.{listed}

-- The events of the topic bulk.status that were published, the newest first.
abbrev pub announced : List Event → List StatusEvent
announced [] = []
announced (published topic (status_event e) ∷ log) = e ∷ announced log
announced (_ ∷ log) = announced log

module _ (env : Env) (m : BatchManager) (silent : m.bulk_status_topic ≡ "") where
  publish_status-silent : (b : Batch) (w : World) → publish_status env m b w ≡ (ok tt, w)
  unfolding publish_status
  publish_status-silent b w = elim (Bool-cases m.producer) [
    | inl has ↦ rw (has, silent) refl
    | inr lacks ↦ rw lacks refl
  ]

  save_and_publish-announced :
      (b : Batch) (w : World) → announced (save_and_publish env m b w).1.log ≡ announced w.log
  unfolding save_and_publish save_batch
  save_and_publish-announced b w = ground (arith, publish_status-silent b (save_batch env b w).1)

  pub set_processing-announced :
      (k : String) (w : World) → announced (set_processing env m k w).1.log ≡ announced w.log
  unfolding set_processing get_batch
  set_processing-announced k w = elim (Result-cases (get_batch env k w).0) [
    | inl (b, found) ↦ ground (
      arith,
      found,
      save_and_publish-announced (record b { status = BatchStatus.processing })
          (get_batch env k w).1,
    )
    | inr (e, fails) ↦ ground (arith, fails)
  ]

  finalize_partial-announced :
      (b : Batch) (allowed valid : ℤ) (w : World)
      → announced (finalize_partial env m b allowed valid w).1.log ≡ announced w.log
  unfolding finalize_partial
  finalize_partial-announced b allowed valid w = ground (
    arith,
    save_and_publish-announced (partial b allowed) w,
    save_and_publish-announced (partial b allowed)
        (publish env m.history_topic (partial_available b.id allowed valid) w).1,
  )
    where
      partial : Batch → ℤ → Batch
      partial c n = record c { status = BatchStatus.partial_available; approved_count = n }

  finalize_quoted-announced :
      (b : Batch) (valid : ℤ) (reply : Result (Option Quote)) (w : World)
      → announced (finalize_quoted env m b valid reply w).1.log ≡ announced w.log
  unfolding finalize_quoted
  finalize_quoted-announced b valid reply w = elim (Option-cases (partial_quote reply valid)) [
    | inl enough ↦
        ground
          (arith, enough, save_and_publish-announced (record b { status = BatchStatus.ready }) w)
    | inr (allowed, partial) ↦ ground (arith, partial, finalize_partial-announced b allowed valid w)
  ]

  finalize_valid-announced :
      (b : Batch) (valid : ℤ) (w : World)
      → announced (finalize_valid env m b valid w).1.log ≡ announced w.log
  unfolding finalize_valid
  finalize_valid-announced b valid w = ground (
    arith,
    finalize_quoted-announced b valid (ok none) w,
    finalize_quoted-announced b valid (quote env b.user_id valid w).0
        (quote env b.user_id valid w).1,
  )

  pub finalize_after_upload-announced :
      (k : String) (valid invalid : ℤ) (w : World)
      → announced (finalize_after_upload env m k valid invalid w).1.log ≡ announced w.log
  unfolding finalize_after_upload get_batch
  finalize_after_upload-announced k valid invalid w = elim (Result-cases (get_batch env k w).0) [
    | inl (b, found) ↦
        let w' = (get_batch env k w).1 in
        let c : Batch = record b { valid_rows = valid } in
        ground (
          arith,
          found,
          save_and_publish-announced (record c { status = BatchStatus.validation_errors }) w',
          finalize_valid-announced c valid w',
        )
    | inr (e, fails) ↦ ground (arith, fails)
  ]

  settle_refund-announced :
      (k : String) (b : Batch) (w : World)
      → announced (settle_refund env m k b w).1.log ≡ announced w.log
  unfolding settle_refund get_jobs save_batch
  settle_refund-announced k b w =
      ground (arith, refund_jobs-log env m (listed k w) (ticked w), refund_jobs-log env m [] w)

  refund_batch-announced :
      (k : String) (b : Batch) (w : World)
      → announced (refund_batch env m k b w).1.log ≡ announced w.log
  unfolding refund_batch refund_answered
  refund_batch-announced k b w = ground (
    arith,
    settle_refund-announced k b (refund_transactions env b.user_id b.billing_transaction_ids k w).1,
  )

  pub set_cancelled-announced :
      (k : String) (w : World) → announced (set_cancelled env m k w).1.log ≡ announced w.log
  unfolding set_cancelled get_batch
  set_cancelled-announced k w = elim (Result-cases (get_batch env k w).0) [
    | inl (b, found) ↦
        let c : Batch = record b { status = BatchStatus.cancelled } in
        let saved = (save_and_publish env m c (get_batch env k w).1).1 in
        let refunded_batch = (refund_batch env m k c saved).1 in
        ground (
          arith,
          found,
          save_and_publish-announced c (get_batch env k w).1,
          refund_batch-announced k c saved,
          count_refunded-log env m k refunded_batch,
        )
    | inr (e, fails) ↦ ground (arith, fails)
  ]

  update_progress-announced :
      (k : String) (jobs : List Job) (w : World)
      → announced (update_progress env m k jobs w).1.log ≡ announced w.log
  unfolding update_progress get_batch
  update_progress-announced k jobs w = elim (Result-cases (get_batch env k w).0) [
    | inl (b, found) ↦
        let w' = (get_batch env k w).1 in
        ground (
          arith,
          found,
          save_and_publish-announced (progressed b (tally jobs) (env.now w'.calls)) w',
        )
    | inr (e, fails) ↦ ground (arith, fails)
  ]

  pub on_job_status_change-announced :
      (k : String) (w : World) → announced (on_job_status_change env m k w).1.log ≡ announced w.log
  unfolding on_job_status_change get_jobs
  on_job_status_change-announced k w = elim (Result-cases (get_jobs env k w).0) [
    | inl (jobs, found) ↦
        ground (arith, found, update_progress-announced k jobs (get_jobs env k w).1)
    | inr (e, fails) ↦ ground (arith, fails)
  ]
