-- ===== src/Examples.antt =====
-- The data of the examples: a store, Kafka and a billing that answer, and a batch of two jobs.
pub mod Manager
pub mod Confirm
pub mod Parts
pub mod Upload
pub mod Results
pub mod Exporter
pub mod RateLimit
pub mod Auth
pub mod Handlers
pub mod Requests
pub mod Downloads
pub mod Limits
pub mod Wired
pub mod Gateway
pub mod Clients
pub mod Interleaved
pub mod Saved
pub mod Template
pub mod Outage
use Prim.Native.String.{◌∷◌ as put}
use bulk.Base.{
  ℕ, zero, suc, ◌≡◌, ◌≢◌, refl, arith, eq_iff, String, true, false, List, [], ◌∷◌, none, some,
}
use bulk.Base.Int.{pos}
use bulk.Domain.{Batch, BatchStatus, JobStatus, InputData}
use bulk.World.{World, Env, Quote, ok}
use bulk.World.Rows.{Json, Items, Members, BatchRow, JobRow}
use bulk.Manager.{BatchManager}
use bulk.Confirm.{Service}
use bulk.Postgres.Tables.{find_batch, jobs_of}
use bulk.Postgres.Convert.{to_domain, scan_batch}
use bulk.Postgres.RoundTrip.{stored}
use bulk.Postgres.Sweep.{Distinct}

-- One text for each number.
abbrev pub identifier : ℕ → String
identifier zero = ""
identifier (suc n) = put "u" (identifier n)

abbrev pub one_row : Quote
one_row = record {
  allowed_total = pos 1;
  can_process = true;
  subscription = pos 1;
  credits = pos 0;
  wallet = pos 0;
  unit_price = none;
}

-- Billing allows one row, and reserves two transactions.
abbrev pub calm : Env
calm = record {
  store_fault = λ n. none;
  publish_fault = λ n. none;
  quote_reply = λ n. ok (some one_row);
  block_reply = λ n. ok (some ("t1" ∷ "t2" ∷ []));
  refund_fault = λ n. none;
  save_reply = λ n. ok "f1";
  now = λ n. suc n;
  uuid = identifier;
  is_uuid = λ t. true;
}

abbrev pub plain_row : BatchRow
plain_row = record {
  id = "b";
  user_id = some "u";
  status = BatchStatus.ready;
  revision = "v1";
  file_storage_id = none;
  total_rows = pos 2;
  valid_rows = pos 2;
  approved_count = pos 2;
  completed_count = pos 0;
  failed_count = pos 0;
  created_at = 7;
  completed_at = none;
  transaction_ids = none;
}

-- The same batch after two transactions were stored with it.
abbrev pub paid_row : BatchRow
paid_row = record plain_row {
  transaction_ids =
      some (Json.arr (Items.cons (Json.str "t1") (Items.cons (Json.str "t2") Items.nil)));
}

abbrev pub job_row : String → JobStatus → JobRow
job_row id status = record {
  id = id;
  batch_id = "b";
  row_number = pos 2;
  status = status;
  input_data = InputData.object (("DAC", "Ann") ∷ []);
  build_id = none;
  barcode_urls = none;
  error_code = none;
  error_message = none;
  billing_transaction_id = none;
}

abbrev pub job_rows : List JobRow
job_rows = job_row "j1" JobStatus.failed ∷ job_row "j2" JobStatus.pending ∷ []

abbrev pub plain : World
plain = record { batches = plain_row ∷ []; jobs = job_rows; calls = 0; log = [] }

abbrev pub paid : World
paid = record plain { batches = paid_row ∷ [] }

abbrev pub manager : BatchManager
manager = record {
  batch_repo = true;
  job_repo = true;
  billing = true;
  history = true;
  producer = true;
  bulk_status_topic = "bulk.status";
  history_topic = "history";
}

abbrev pub service : Service
service = record {
  batch_repo = true;
  job_repo = true;
  billing = true;
  producer = true;
  job_topic = "";
}

-- The batches of the two rows.
abbrev pub plain_batch : Batch
plain_batch = record {
  id = "b";
  user_id = "u";
  status = BatchStatus.ready;
  revision = "v1";
  file_storage_id = "";
  total_rows = pos 2;
  valid_rows = pos 2;
  created_at = 7;
  approved_count = pos 2;
  completed_count = pos 0;
  failed_count = pos 0;
  completed_at = none;
  billing_transaction_ids = [];
  priority = "";
  timeout_ms = pos 0;
}

abbrev pub paid_batch : Batch
paid_batch = record plain_batch { billing_transaction_ids = "t1" ∷ "t2" ∷ [] }

pub plain-stored : stored "b" plain ≡ some plain_batch
unfolding find_batch to_domain scan_batch
plain-stored = refl

pub paid-stored : stored "b" paid ≡ some paid_batch
unfolding find_batch to_domain scan_batch
paid-stored = refl

pub job_rows-Distinct : Distinct (jobs_of "b" job_rows)
unfolding jobs_of
job_rows-Distinct = ground (arith, eq_iff "j2" "j1")

pub suc_nonzero : (n : ℕ) → suc n ≢ 0
suc_nonzero n = omega arith
