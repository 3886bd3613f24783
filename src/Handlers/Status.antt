-- ===== src/Handlers/Status.antt =====
-- `HandleBatchStatus`: GET /batch/{id}/status.
pub mod Answer
pub mod Consumed
pub mod Shown
use bulk.Base.{
  ℕ, suc, ◌+◌, String, Bool, true, false, ◌&&◌, not, List, [], ◌∷◌, ◌++◌, length, Option, none,
  some, if◌then◌else◌, str_eq, ◌==◌,
}
use bulk.Base.Int.{ℤ, pos, negsuc}
use bulk.Domain.{Batch, Job, JobResult, BatchStatus, JobStatus, Time}
use bulk.World.{World, Env, Action, Result, ok, err, Ratio}
use bulk.Postgres.Repositories.{get_batch, get_jobs, get_results}
use bulk.Manager.{shown_pending, percent}
use bulk.Barcode.{UrlText, parse_barcode_urls}
use bulk.Handlers.Reply.{
  Reply, reply, Run, Handler, ◌>>=◌, ◌>>◌, answer, fail, Deps, GoText, shown_time,
}

-- `results.successful` and `results.failed`
pub record Generated : Type 0 where
  pub row : ℤ
  pub build_id : String
  pub pdf417 : String
  pub code128 : String

pub record Failed : Type 0 where
  pub row : ℤ
  pub code : String
  pub message : String

pub record Outcomes : Type 0 where
  pub successful : List Generated
  pub failed : List Failed

-- The variables that the handler reads from the batch and the jobs.
pub record Overview : Type 0 where
  pub status : BatchStatus
  pub total : ℤ
  pub completed : ℤ
  pub failed : ℤ
  pub created_at : Time
  pub updated_at : Time

-- The answer. Its billing part repeats the counts, as charged, refunded and pending.
pub record StatusReply : Type 0 where
  pub batch_id : String
  pub status : BatchStatus
  pub total : ℤ
  pub completed : ℤ
  pub failed : ℤ
  pub pending : ℤ
  pub percent_complete : Ratio
  pub results : Outcomes
  pub charged : ℤ
  pub refunded : ℤ
  pub billing_pending : ℤ
  pub created_at : String
  pub updated_at : String

abbrev no_batch : Overview
no_batch = record {
  status = BatchStatus.pending;
  total = pos 0;
  completed = pos 0;
  failed = pos 0;
  created_at = 0;
  updated_at = 0;
}

-- `if b.Status != ""`
shown_status : BatchStatus → BatchStatus
shown_status (BatchStatus.other s) =
    if str_eq s "" then BatchStatus.pending else BatchStatus.other s
shown_status s = s

updated_time : Batch → Time
updated_time b = elim b.completed_at [ none ↦ b.created_at | some t ↦ t ]

unfoldable pub overview_of : Batch → Overview
unfolding shown_status updated_time
overview_of b = record {
  status = shown_status b.status;
  total = b.total_rows;
  completed = b.completed_count;
  failed = b.failed_count;
  created_at = b.created_at;
  updated_at = updated_time b;
}

abbrev pub is_zero : ℤ → Bool
is_zero (pos n) = n == 0
is_zero (negsuc n) = false

-- The loop over the jobs that counts the completed and the failed ones.
count_ends : ℕ → ℕ → List Job → ℕ × ℕ
count_ends c f [] = (c, f)
count_ends c f (j ∷ js) = elim j.status [
  | JobStatus.completed ↦ count_ends (c + 1) f js
  | JobStatus.failed ↦ count_ends c (f + 1) js
  | _ ↦ count_ends c f js
]

-- The counts of a batch with no total, from its jobs.
unfoldable pub infer_counts : Overview → List Job → Overview
unfolding count_ends
infer_counts o jobs =
    let (c, f) = count_ends 0 0 jobs in
    let sized = record o { total = pos (length jobs) } in
    if is_zero o.completed && is_zero o.failed
    then record sized { completed = pos c; failed = pos f }
    else sized

-- The test of the loop over the results.
abbrev pub no_error : JobResult → Bool
no_error r = str_eq r.error_code "" && str_eq r.error_message ""

module _ (go : UrlText) where
  unfoldable pub generated_of : JobResult → Generated
  generated_of r =
      let (pdf, code) = parse_barcode_urls go r.barcode_urls in
      record { row = r.row_number; build_id = r.build_id; pdf417 = pdf; code128 = code }

  unfoldable pub failed_row : JobResult → Failed
  failed_row r = record { row = r.row_number; code = r.error_code; message = r.error_message }

  -- The loop over the results.
  collect : Outcomes → List JobResult → Outcomes
  unfolding generated_of failed_row
  collect o [] = o
  collect o (r ∷ rs) =
      let next =
        if no_error r
        then record o { successful = o.successful ++ generated_of r ∷ [] }
        else record o { failed = o.failed ++ failed_row r ∷ [] } in
      collect next rs

unfoldable pub status_reply : GoText → String → Overview → Outcomes → StatusReply
unfolding shown_time
status_reply go k o results =
    let pending = shown_pending o.total o.completed o.failed in
    record {
      batch_id = k;
      status = o.status;
      total = o.total;
      completed = o.completed;
      failed = o.failed;
      pending = pending;
      percent_complete = percent o.total o.completed;
      results = results;
      charged = o.completed;
      refunded = o.failed;
      billing_pending = pending;
      created_at = shown_time go o.created_at;
      updated_at = shown_time go o.updated_at;
    }

module _ (env : Env) (go : GoText) (urls : UrlText) (d : Deps) where
  infer : String → Overview → Run Overview
  unfolding infer_counts
  infer k o =
      if is_zero o.total && d.job_repo
      then (do
        listed ← get_jobs env k
        answer (elim listed [ ok jobs ↦ infer_counts o jobs | err e ↦ o ]))
      else answer o

  outcomes : String → Run Outcomes
  unfolding collect
  outcomes k =
      let none_yet : Outcomes = record { successful = []; failed = [] } in
      if d.job_repo
      then (do
        found ← get_results env k
        answer (elim found [ ok rs ↦ collect urls none_yet rs | err e ↦ none_yet ]))
      else answer none_yet

  show_status : String → Overview → Handler StatusReply
  unfolding infer outcomes status_reply
  show_status k o = do
    counted ← infer k o
    results ← outcomes k
    answer (reply 200 (status_reply go k counted results))

  -- `HandleBatchStatus`
  unfoldable pub handle_batch_status : String → Handler StatusReply
  unfolding show_status overview_of
  handle_batch_status k =
      if d.batch_repo
      then (do
        found ← get_batch env k
        elim found [
          | err e ↦ fail 500 "SERVICE_ERROR" "failed to fetch batch"
          | ok b ↦ show_status k (overview_of b)
        ])
      else show_status k no_batch
