-- ===== src/Handlers/Status/Shown.antt =====
-- What `HandleBatchStatus` shows of a batch, next to what it is to show.
use bulk.Base.{
  ℕ, zero, suc, String, ◌≡◌, refl, Bool, true, not, List, map, length, none, some, arith,
  if◌then◌else◌, ◌&&◌, select, ◌∙◌, str_eq, ap,
}
use bulk.Base.Int.{ℤ, pos, negsuc, ltb_ℤ, ◌-ℤ◌, ◌*ℤ◌}
use bulk.Domain.{Batch, Job, JobResult, BatchStatus, Time}
use bulk.World.{World, Env, Ratio}
use bulk.Postgres.Calls.{results_of}
use bulk.Postgres.RoundTrip.{stored}
use bulk.Manager.Progress.{listed, count_jobs}
use bulk.Barcode.{UrlText, parse_barcode_urls}
use bulk.Handlers.Reply.{reply, Deps, GoText, shown_time}
use bulk.Handlers.Status.{
  Generated, Failed, StatusReply, overview_of, generated_of, failed_row, status_reply,
  handle_batch_status,
}
use bulk.Handlers.Status.Answer.{
  is_completed, is_failed, counted, outcomes_of, handle_batch_status_lem,
}
use bulk.Manager.{shown_pending, percent}

-- What an answer is to show of a batch, its jobs and their results, written down without the handler.
-- The stored counts are shown where a total is stored; without one the total is the number of jobs,
-- and where no completed and no failed job is stored either, the jobs are counted.
abbrev pub no_total : Batch → Bool
no_total b = not (ltb_ℤ b.total_rows (pos 0)) && not (ltb_ℤ (pos 0) b.total_rows)

abbrev pub no_counts : Batch → Bool
no_counts b =
    not (ltb_ℤ b.completed_count (pos 0))
    && not (ltb_ℤ (pos 0) b.completed_count)
    && not (ltb_ℤ b.failed_count (pos 0))
    && not (ltb_ℤ (pos 0) b.failed_count)

abbrev pub expected_total : Batch → List Job → ℤ
expected_total b js = if no_total b then pos (length js) else b.total_rows

abbrev pub expected_completed : Batch → List Job → ℤ
expected_completed b js =
    if no_total b && no_counts b then pos (count_jobs is_completed js) else b.completed_count

abbrev pub expected_failed : Batch → List Job → ℤ
expected_failed b js =
    if no_total b && no_counts b then pos (count_jobs is_failed js) else b.failed_count

abbrev pub not_negative : ℤ → ℤ
not_negative (pos n) = pos n
not_negative (negsuc n) = pos 0

abbrev pub expected_status : BatchStatus → BatchStatus
expected_status (BatchStatus.other s) =
    if str_eq s "" then BatchStatus.pending else BatchStatus.other s
expected_status s = s

abbrev pub expected_percent : ℤ → ℤ → Ratio
expected_percent (pos (suc n)) completed = record { num = completed *ℤ pos 100; den = pos (suc n) }
expected_percent _ completed = record { num = pos 0; den = pos 1 }

abbrev pub expected_time : GoText → Time → String
expected_time go zero = ""
expected_time go (suc t) = go.format_time (suc t)

-- A result is a success if its error code and its message are empty.
abbrev pub is_success : JobResult → Bool
is_success r = str_eq r.error_code "" && str_eq r.error_message ""

abbrev pub expected_successes : UrlText → List JobResult → List Generated
expected_successes urls rs =
    map
      (λ r. record {
        row = r.row_number;
        build_id = r.build_id;
        pdf417 = (parse_barcode_urls urls r.barcode_urls).0;
        code128 = (parse_barcode_urls urls r.barcode_urls).1;
      })
      (select is_success rs)

abbrev pub expected_failures : List JobResult → List Failed
expected_failures rs =
    map (λ r. record { row = r.row_number; code = r.error_code; message = r.error_message })
      (select (λ r. not (is_success r)) rs)

abbrev pub expected_reply :
    GoText → UrlText → String → Batch → List Job → List JobResult → StatusReply
expected_reply go urls k b js rs =
    let total = expected_total b js in
    let completed = expected_completed b js in
    let failed = expected_failed b js in
    record {
      batch_id = k;
      status = expected_status b.status;
      total = total;
      completed = completed;
      failed = failed;
      pending = not_negative (total -ℤ completed -ℤ failed);
      percent_complete = expected_percent total completed;
      results = record { successful = expected_successes urls rs; failed = expected_failures rs };
      charged = completed;
      refunded = failed;
      billing_pending = not_negative (total -ℤ completed -ℤ failed);
      created_at = expected_time go b.created_at;
      updated_at = expected_time go (elim b.completed_at [ none ↦ b.created_at | some t ↦ t ]);
    }

expected_counts :
    (b : Batch) (js : List Job)
    → let o = counted (overview_of b) js in
      (o.total ≡ expected_total b js)
      × (o.completed ≡ expected_completed b js)
      × (o.failed ≡ expected_failed b js)
      × (o.status ≡ expected_status b.status)
      × (o.created_at ≡ b.created_at)
      × (o.updated_at ≡ elim b.completed_at [ none ↦ b.created_at | some t ↦ t ])
unfolding overview_of
expected_counts b js = ground arith

shown_time_lem : (go : GoText) (t : Time) → shown_time go t ≡ expected_time go t
unfolding shown_time
shown_time_lem go zero = refl
shown_time_lem go (suc t) = ground arith

outcomes_of_lem :
    (urls : UrlText) (rs : List JobResult)
    → outcomes_of urls rs
      ≡ record { successful = expected_successes urls rs; failed = expected_failures rs }
unfolding generated_of failed_row
outcomes_of_lem urls rs = refl

shown_pending_lem :
    (total completed failed : ℤ)
    → shown_pending total completed failed ≡ not_negative (total -ℤ completed -ℤ failed)
unfolding shown_pending
shown_pending_lem total completed failed = ground arith

percent_lem : (total completed : ℤ) → percent total completed ≡ expected_percent total completed
unfolding percent
percent_lem (pos zero) completed = refl
percent_lem (pos (suc n)) completed = ground arith
percent_lem (negsuc n) completed = ground arith

status_reply_lem :
    (go : GoText) (urls : UrlText) (k : String) (b : Batch) (js : List Job) (rs : List JobResult)
    → status_reply go k (counted (overview_of b) js) (outcomes_of urls rs)
      ≡ expected_reply go urls k b js rs
unfolding status_reply
status_reply_lem go urls k b js rs =
    let (total, completed, failed, status, created, updated) = expected_counts b js in
    rw
      (
        total,
        completed,
        failed,
        status,
        created,
        updated,
        outcomes_of_lem urls rs,
        shown_pending_lem,
        percent_lem,
        shown_time_lem go b.created_at,
        shown_time_lem go (elim b.completed_at [ none ↦ b.created_at | some t ↦ t ]),
      )
      refl

module _ (env : Env) (go : GoText) (urls : UrlText) (d : Deps) (w : World) (k : String) (b : Batch)
    (up : (n : ℕ) → env.store_fault n ≡ none) (hb : d.batch_repo ≡ true) (hj : d.job_repo ≡ true)
    (s : stored k w ≡ some b) where
  -- With a store that answers, the status of a stored batch is answered with 200 and nothing is changed.
  -- The answer has the stored total, or the number of jobs where none is stored; the stored counts of
  -- completed and failed jobs, or those of the jobs where no total and no count is stored; what is
  -- left of the total, or 0, as pending; the same three counts as charged, refunded and pending; the
  -- times at which the batch was made and completed; and the results in the order of the jobs, those
  -- without a stored error as successful and those with one as failed.
  pub handle_batch_status-shows :
      let r = handle_batch_status env go urls d k w in
      (r.0 ≡ reply 200 (expected_reply go urls k b (listed k w) (results_of k w)))
      × (r.1.batches ≡ w.batches)
      × (r.1.jobs ≡ w.jobs)
      × (r.1.log ≡ w.log)
  handle_batch_status-shows =
      let lem = handle_batch_status_lem env go urls d w k b up hb hj s in
      (
        lem.0 ∙ ap (reply 200) (status_reply_lem go urls k b (listed k w) (results_of k w)),
        lem.1,
        lem.2,
        lem.3,
      )
