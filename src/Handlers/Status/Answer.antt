-- ===== src/Handlers/Status/Answer.antt =====
-- What `HandleBatchStatus` answers where the store does.
use bulk.Base.{
  ℕ, suc, ◌+◌, String, ◌≡◌, Bool, true, false, not, List, [], ◌∷◌, ◌++◌, map, length, none, some,
  arith, if◌then◌else◌, ◌&&◌, select, ◌∙◌, inl, inr, Bool-cases,
}
use mathlib.Core.List.{append_assoc, append-nil}
use bulk.Base.Int.{pos}
use bulk.Domain.{Batch, Job, JobResult, JobStatus}
use bulk.World.{World, Env}
use bulk.Postgres.Calls.{ticked, get_jobs_up, results_of}
use bulk.Postgres.RoundTrip.{stored, get_batch-stored}
use bulk.Postgres.Repositories.{get_results}
use bulk.Manager.Progress.{listed, count_jobs}
use bulk.Barcode.{UrlText}
use bulk.Handlers.Reply.{reply, Deps, GoText}
use bulk.Handlers.Status.{
  Overview, Outcomes, overview_of, is_zero, count_ends, infer_counts, no_error, generated_of,
  failed_row, collect, status_reply, infer, outcomes, show_status, handle_batch_status,
}

abbrev pub is_completed : JobStatus → Bool
is_completed JobStatus.completed = true
is_completed _ = false

abbrev pub is_failed : JobStatus → Bool
is_failed JobStatus.failed = true
is_failed _ = false

-- The counts of a batch with the given jobs: the stored ones, and where no total is stored those of
-- the jobs, the stored counts of completed and failed jobs being kept if one of them is not 0.
abbrev pub counted : Overview → List Job → Overview
counted o js =
    if is_zero o.total
    then (if is_zero o.completed && is_zero o.failed
        then record o {
          total = pos (length js);
          completed = pos (count_jobs is_completed js);
          failed = pos (count_jobs is_failed js);
        }
        else record o { total = pos (length js) })
    else o

-- The results of a batch's jobs: those with no stored error, and those with one.
abbrev pub outcomes_of : UrlText → List JobResult → Outcomes
outcomes_of urls rs = record {
  successful = map (generated_of urls) (select no_error rs);
  failed = map (failed_row urls) (select (λ r. not (no_error r)) rs);
}

count_ends_lem :
    (c f : ℕ) (js : List Job)
    → count_ends c f js ≡ (c + count_jobs is_completed js, f + count_jobs is_failed js)
unfolding count_ends
count_ends_lem c f [] = ground arith
count_ends_lem c f (j ∷ js) =
    ground (arith, count_ends_lem c f js, count_ends_lem (c + 1) f js, count_ends_lem c (f + 1) js)

infer_counts-counted :
    (o : Overview) (js : List Job) → is_zero o.total ≡ true → infer_counts o js ≡ counted o js
unfolding infer_counts
infer_counts-counted o js h = ground (arith, count_ends_lem 0 0 js)

collect_lem :
    (urls : UrlText) (o : Outcomes) (rs : List JobResult)
    → collect urls o rs ≡ record {
      successful = o.successful ++ (outcomes_of urls rs).successful;
      failed = o.failed ++ (outcomes_of urls rs).failed;
    }
unfolding collect
collect_lem urls o [] = rw (append-nil o.successful, append-nil o.failed)
collect_lem urls o (r ∷ rs) = elim (Bool-cases (no_error r)) [
  | inl fine ↦ rw fine (
      collect_lem urls (record o { successful = o.successful ++ generated_of urls r ∷ [] }) rs
      ∙ rw (append_assoc o.successful))
  | inr broken ↦ rw broken (
      collect_lem urls (record o { failed = o.failed ++ failed_row urls r ∷ [] }) rs
      ∙ rw (append_assoc o.failed))
]

module _ (env : Env) (go : GoText) (urls : UrlText) (d : Deps) (w : World) (k : String) (b : Batch)
    (up : (n : ℕ) → env.store_fault n ≡ none) (hb : d.batch_repo ≡ true) (hj : d.job_repo ≡ true)
    (s : stored k w ≡ some b) where
  -- The answer in the handler's own steps, without its loops.
  pub handle_batch_status_lem :
      let r = handle_batch_status env go urls d k w in
      (r.0
        ≡ reply 200 (
            status_reply go k
              (counted (overview_of b) (listed k w))
              (outcomes_of urls (results_of k w))))
      × (r.1.batches ≡ w.batches)
      × (r.1.jobs ≡ w.jobs)
      × (r.1.log ≡ w.log)
  unfolding handle_batch_status show_status infer outcomes get_results
  handle_batch_status_lem = ground (
    arith,
    get_batch-stored env w k b (up _) s,
    get_jobs_up env (ticked w) (up _) k,
    infer_counts-counted (overview_of b) (listed k w),
    collect_lem urls (record { successful = []; failed = [] }) (results_of k w),
    up (suc w.calls),
    up (suc (suc w.calls)),
  )
