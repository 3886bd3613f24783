-- ===== src/Examples/Handlers.antt =====
-- The answers to requests about the batch of two jobs.
use bulk.Base.{
  String, ◌≡◌, refl, true, false, [], ◌∷◌, map, Any, inl, inr, none, some, if◌then◌else◌, str_eq,
}
use bulk.Base.Int.{pos}
use bulk.Domain.{Fields, BulkResultEvent, JobStatus}
use bulk.Postgres.Tables.{jobs_of}
use bulk.Postgres.Convert.{job_to_domain}
use bulk.Postgres.Marked.{marked}
use bulk.Manager.Progress.{listed}
use bulk.Manager.Cancel.{refund_requests}
use bulk.Manager.Refund.{closed}
use bulk.Confirm.Steps.{sent_jobs}
use bulk.Results.{ResultHandler, handle_result}
use bulk.Barcode.{UrlText, as_values}
use bulk.Handlers.Reply.{reply, Deps, GoText}
use bulk.Handlers.Status.{handle_batch_status}
use bulk.Postgres.Calls.{results_of}
use bulk.Handlers.Status.Shown.{expected_reply, handle_batch_status-shows}
use bulk.Handlers.Status.Consumed.{Shows, shown_successful, handle_result-handle_batch_status}
use bulk.Handlers.Cancel.{handle_cancel}
use bulk.Handlers.Cancel.Answer.{handle_cancel-refunds}
use bulk.Handlers.Restart.{RestartRequest, is_failed, handle_admin_restart_batch}
use bulk.Handlers.Restart.Answer.{handle_admin_restart_batch-restarts}
use bulk.Examples.{
  calm, plain, paid, manager, plain_batch, paid_batch, plain-stored, paid-stored, job_row, job_rows,
  job_rows-Distinct, suc_nonzero,
}

-- All parts are set but the service.
abbrev pub deps : Deps
deps = record {
  batch_repo = true;
  job_repo = true;
  batch_manager = some manager;
  service = none;
  billing = true;
  producer = true;
  job_topic = "";
}

abbrev pub go : GoText
go = record {
  format_time = λ t. "1970-01-01T00:00:00Z";
  parse_time = λ s. none;
  atoi = λ s. if str_eq s "2" then some (pos 2) else none;
}

abbrev urls : Fields
urls = ("pdf417", "p") ∷ ("code128", "c") ∷ []

-- One map, and its text.
abbrev urls_json : Fields → String
urls_json fields = "{\"pdf417\":\"p\",\"code128\":\"c\"}"

abbrev pub url_text : UrlText
url_text = record {
  object = λ s. some (as_values urls);
  texts = λ s. none;
  split_comma = λ s. s ∷ [];
  trim_space = λ s. s;
}

-- The generation of the second job has failed.
abbrev failed_event : BulkResultEvent
failed_event = record {
  job_id = "j2";
  batch_id = "b";
  status = "failed";
  build_id = "build";
  barcode_urls = some urls;
  billing = none;
}

abbrev handler : ResultHandler
handler = record {
  job_repo = true;
  history = true;
  history_topic = "history";
  notifier = some manager;
}

handle_result-handle_batch_status_example : Any (Shows (pos 2) "build" urls) (
    shown_successful
      (handle_batch_status calm go url_text deps "b"
        (handle_result calm urls_json handler failed_event plain).1).0)
unfolding jobs_of
handle_result-handle_batch_status_example =
    handle_result-handle_batch_status calm go url_text urls_json deps handler manager failed_event
      plain plain_batch (job_row "j1" JobStatus.failed) (job_row "j2" JobStatus.pending ∷ []) urls
      (pos 2) (λ n. refl) (λ n. suc_nonzero n) refl refl refl refl refl refl plain-stored refl
      (inr (inl (refl, refl))) refl refl refl

handle_batch_status-shows_example :
    let r = handle_batch_status calm go url_text deps "b" plain in
    (r.0
      ≡ reply 200
          (expected_reply go url_text "b" plain_batch (listed "b" plain) (results_of "b" plain)))
    × (r.1.batches ≡ plain.batches)
    × (r.1.jobs ≡ plain.jobs)
    × (r.1.log ≡ [])
handle_batch_status-shows_example =
    handle_batch_status-shows calm go url_text deps plain "b" plain_batch (λ n. refl) refl refl
      plain-stored

handle_cancel-refunds_example :
    let r = handle_cancel calm (some deps) "b" paid in
    (r.0
      ≡ reply 200 (record {
        batch_id = "b";
        pending = 1;
        refunded = 1;
        transaction_ids = "t1" ∷ "t2" ∷ [];
      }))
    × (refund_requests r.1.log ≡ ("t1" ∷ "t2" ∷ []) ∷ [])
    × (jobs_of "b" r.1.jobs ≡ map closed (jobs_of "b" job_rows))
unfolding jobs_of job_to_domain
handle_cancel-refunds_example =
    handle_cancel-refunds calm deps manager paid "b" paid_batch (λ n. refl) refl refl refl refl refl
      paid-stored "t1" ("t2" ∷ []) (λ n. refl) refl refl job_rows-Distinct

handle_admin_restart_batch-restarts_example :
    let req : RestartRequest = record { restart_mode = "failed_only"; force = false } in
    let r = handle_admin_restart_batch calm (some deps) "b" (some req) plain in
    (r.0 ≡ reply 200 (record { restarted = 1; skipped = 1 }))
    × (jobs_of "b" r.1.jobs ≡ map (marked is_failed JobStatus.queued) (jobs_of "b" job_rows))
    × (sent_jobs r.1.log ≡ "j1" ∷ [])
unfolding jobs_of job_to_domain
handle_admin_restart_batch-restarts_example =
    handle_admin_restart_batch-restarts calm deps (λ n. refl) (λ n. refl) refl plain "b" plain_batch
      false refl refl plain-stored job_rows-Distinct
