-- ===== src/Examples/Results.antt =====
-- The results of the generation.
use bulk.Base.{ℕ, suc, String, ◌≡◌, refl, true, [], ◌∷◌, none, some, arith, eq_iff}
use bulk.Base.Int.{pos}
use bulk.Domain.{Fields, BulkResultEvent, JobStatus, job_status}
use bulk.World.{Action, ok, err, outside, dead_letter, ignore}
use bulk.Postgres.Tables.{jobs_of, update_job}
use bulk.Postgres.Repositories.{result_columns}
use bulk.Postgres.RoundTrip.{stored, saved_over}
use bulk.Manager.Progress.{listed, progress_of}
use bulk.Outside.{publish}
use bulk.Results.{ResultHandler, ResultConsumer, handle_result, result_of, consume, start}
use bulk.Results.Handled.{handle_result-stored}
use bulk.Results.DeadLetters.{dead_letters, consume-dead_letter, start-handle_all}
use bulk.Examples.{calm, plain, manager, plain_batch, plain-stored, job_row, job_rows, suc_nonzero}

abbrev no_json : Fields → String
no_json fields = "{}"

abbrev handler : ResultHandler
handler = record {
  job_repo = true;
  history = true;
  history_topic = "history";
  notifier = some manager;
}

-- The second job is completed.
abbrev completed : BulkResultEvent
completed = record {
  job_id = "j2";
  batch_id = "b";
  status = "completed";
  build_id = "build";
  barcode_urls = none;
  billing = some "t2";
}

handle_result-stored_example :
    let w' = (handle_result calm no_json handler completed plain).1 in
    (w'.jobs
      ≡ update_job "j2"
          (result_columns JobStatus.completed (result_of calm no_json completed))
          job_rows)
    × (now : ℕ) × (stored "b" w'
        ≡ some (saved_over plain_batch (progress_of plain_batch (listed "b" w') now)))
unfolding jobs_of job_status
handle_result-stored_example =
    handle_result-stored calm no_json handler (λ n. refl) manager completed plain plain_batch
      (job_row "j1" JobStatus.failed) (job_row "j2" JobStatus.pending ∷ []) (λ n. suc_nonzero n)
      refl refl refl refl plain-stored refl

-- A handler that always fails, and a consumer that tries it three times.
abbrev failing : BulkResultEvent → Action (Unit {0})
failing ev w = (err (outside "down"), record w { calls = suc w.calls })

abbrev consumer : ResultConsumer
consumer = record {
  handler = some failing;
  producer = true;
  dlq_topic = "dlq";
  retry_count = pos 2;
}

consume-dead_letter_example :
    consume calm consumer (some completed) plain
    ≡ ignore (publish calm "dlq" (dead_letter completed)) (record plain { calls = 3 })
consume-dead_letter_example =
    consume-dead_letter calm consumer failing completed 2 plain refl refl refl
      (ground (arith, eq_iff "dlq" "")) (λ v. ground arith)

-- The consumer as it is wired.
abbrev wired : ResultConsumer
wired = record consumer { handler = some (handle_result calm no_json handler) }

start-handle_all_example :
    (start calm wired (none ∷ some completed ∷ []) plain
      ≡ (ok tt, (handle_result calm no_json handler completed plain).1))
    × (dead_letters (handle_result calm no_json handler completed plain).1.log ≡ [])
start-handle_all_example =
    start-handle_all calm no_json handler wired 2 refl refl (none ∷ some completed ∷ []) plain
