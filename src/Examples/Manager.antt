-- ===== src/Examples/Manager.antt =====
-- The life cycle of a batch.
use bulk.Base.{String, ◌≡◌, refl, [], ◌∷◌, map, none, some}
use bulk.Base.Int.{pos}
use bulk.Domain.{Job, BatchStatus, JobStatus, InputData}
use bulk.Postgres.Tables.{jobs_of}
use bulk.Postgres.Convert.{job_to_domain}
use bulk.Postgres.RoundTrip.{stored, saved_over}
use bulk.Manager.{set_cancelled, finalize_after_upload, on_job_status_change}
use bulk.Manager.Cancel.{refund_requests, set_cancelled-refunds, set_cancelled_twice}
use bulk.Manager.Refund.{closed}
use bulk.Manager.Finalize.{finalize_after_upload-stored}
use bulk.Manager.Progress.{listed, on_job_status_change-stored}
use bulk.Examples.{
  calm, plain, paid, manager, plain_batch, paid_batch, plain-stored, paid-stored, job_rows,
  job_rows-Distinct, suc_nonzero,
}

set_cancelled_twice_example :
    refund_requests (set_cancelled calm manager "b" (set_cancelled calm manager "b" paid).1).1.log
    ≡ ("t1" ∷ "t2" ∷ []) ∷ []
set_cancelled_twice_example =
    set_cancelled_twice calm manager paid "b" paid_batch "t1" ("t2" ∷ []) (λ n. refl) (λ n. refl)
      refl refl refl paid-stored refl job_rows-Distinct

set_cancelled-refunds_example :
    (jobs_of "b" (set_cancelled calm manager "b" paid).1.jobs ≡ map closed (jobs_of "b" job_rows))
    × (stored "b" (set_cancelled calm manager "b" paid).1
        ≡ some (
            saved_over paid_batch
              (record paid_batch { status = BatchStatus.cancelled; billing_transaction_ids = [] })))
    × (refund_requests (set_cancelled calm manager "b" paid).1.log ≡ ("t1" ∷ "t2" ∷ []) ∷ [])
set_cancelled-refunds_example =
    set_cancelled-refunds calm manager paid "b" paid_batch (λ n. refl) refl paid-stored "t1"
      ("t2" ∷ []) (λ n. refl) refl refl refl job_rows-Distinct

finalize_after_upload-stored_example :
    stored "b" (finalize_after_upload calm manager "b" (pos 2) (pos 0) plain).1
    ≡ some (record plain_batch {
      valid_rows = pos 2;
      status = BatchStatus.partial_available;
      approved_count = pos 1;
    })
finalize_after_upload-stored_example =
    finalize_after_upload-stored calm manager plain "b" plain_batch (pos 2) (pos 0) (λ n. refl) refl
      plain-stored

abbrev pub job_of : String → JobStatus → Job
job_of id status = record {
  id = id;
  batch_id = "b";
  row_number = pos 2;
  status = status;
  input_data = InputData.object (("DAC", "Ann") ∷ []);
  billing_transaction_id = none;
}

pub plain-listed :
    listed "b" plain ≡ job_of "j1" JobStatus.failed ∷ job_of "j2" JobStatus.pending ∷ []
unfolding jobs_of job_to_domain
plain-listed = refl

on_job_status_change-stored_example :
    stored "b" (on_job_status_change calm manager "b" plain).1
    ≡ some (record plain_batch {
      completed_count = pos 1;
      failed_count = pos 1;
      status = BatchStatus.processing;
    })
on_job_status_change-stored_example =
    on_job_status_change-stored calm manager plain "b" plain_batch (job_of "j1" JobStatus.failed)
      (job_of "j2" JobStatus.pending ∷ []) (λ n. refl) (λ n. suc_nonzero n) refl refl plain-stored
      plain-listed
