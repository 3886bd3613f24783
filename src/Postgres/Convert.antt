-- ===== src/Postgres/Convert.antt =====
-- Between the domain's batch, the adapter's batch and the rows: `toPostgres`, `ToDomain`, the column
-- values that `Create`, `Update` and `GetByID` write and read, and `ToPort` of a job's result.
use bulk.Base.{String, List, [], Option, none, some, if◌then◌else◌, str_eq, ◌==◌}
use bulk.Base.Int.{ℤ, pos}
use bulk.Domain.{Batch, Job, JobResult, Time, InputData}
use bulk.World.Rows.{BatchRow, JobRow, Json}
use bulk.Postgres.TxColumn.{PgBatch, tx_arg, parse_transaction_ids}

-- An empty text is written as NULL.
unfoldable pub nullable : String → Option String
nullable s = if str_eq s "" then none else some s

-- NULL is read as the empty text.
unfoldable pub text_or_empty : Option String → String
text_or_empty none = ""
text_or_empty (some s) = s

unfoldable pub time_or_zero : Option Time → Time
time_or_zero none = 0
time_or_zero (some t) = t

unfoldable pub non_zero : Time → Option Time
non_zero t = if t == 0 then none else some t

-- `toPostgres` sets neither the creation time nor `Priority` and `TimeoutMs`.
unfoldable pub to_postgres : Batch → PgBatch
unfolding time_or_zero
to_postgres b = record {
  id = b.id;
  user_id = b.user_id;
  status = b.status;
  revision = b.revision;
  file_storage_id = b.file_storage_id;
  total_rows = b.total_rows;
  valid_rows = b.valid_rows;
  approved_count = b.approved_count;
  completed_count = b.completed_count;
  failed_count = b.failed_count;
  created_at = 0;
  completed_at = time_or_zero b.completed_at;
  transaction_ids = b.billing_transaction_ids;
  priority = "";
  timeout_ms = pos 0;
}

-- `Batch.ToDomain`
unfoldable pub to_domain : PgBatch → Batch
unfolding non_zero
to_domain b = record {
  id = b.id;
  user_id = b.user_id;
  status = b.status;
  revision = b.revision;
  file_storage_id = b.file_storage_id;
  total_rows = b.total_rows;
  valid_rows = b.valid_rows;
  created_at = b.created_at;
  approved_count = b.approved_count;
  completed_count = b.completed_count;
  failed_count = b.failed_count;
  completed_at = non_zero b.completed_at;
  billing_transaction_ids = b.transaction_ids;
  priority = b.priority;
  timeout_ms = b.timeout_ms;
}

transactions_of : Option Json → List String × String × ℤ
transactions_of none = ([], "", pos 0)
transactions_of (some j) = parse_transaction_ids j

-- The adapter's batch that `GetByID` scans from a row.
unfoldable pub scan_batch : BatchRow → PgBatch
unfolding text_or_empty time_or_zero transactions_of parse_transaction_ids
scan_batch r =
    let (ids, priority, timeout) = transactions_of r.transaction_ids in
    record {
      id = r.id;
      user_id = text_or_empty r.user_id;
      status = r.status;
      revision = r.revision;
      file_storage_id = text_or_empty r.file_storage_id;
      total_rows = r.total_rows;
      valid_rows = r.valid_rows;
      approved_count = r.approved_count;
      completed_count = r.completed_count;
      failed_count = r.failed_count;
      created_at = r.created_at;
      completed_at = time_or_zero r.completed_at;
      transaction_ids = ids;
      priority = priority;
      timeout_ms = timeout;
    }

-- The row that `Create` inserts; `created_at` is the table's default, the time of the insertion.
unfoldable pub insert_columns : PgBatch → Time → BatchRow
unfolding nullable tx_arg
insert_columns b now = record {
  id = b.id;
  user_id = nullable b.user_id;
  status = b.status;
  revision = b.revision;
  file_storage_id = nullable b.file_storage_id;
  total_rows = b.total_rows;
  valid_rows = b.valid_rows;
  approved_count = b.approved_count;
  completed_count = b.completed_count;
  failed_count = b.failed_count;
  created_at = now;
  completed_at = none;
  transaction_ids = some (tx_arg b);
}

-- The columns that `Update` sets: neither the user nor the revision, and a zero time as it is.
unfoldable pub update_columns : PgBatch → BatchRow → BatchRow
unfolding nullable tx_arg
update_columns b r = record r {
  status = b.status;
  file_storage_id = nullable b.file_storage_id;
  total_rows = b.total_rows;
  valid_rows = b.valid_rows;
  approved_count = b.approved_count;
  completed_count = b.completed_count;
  failed_count = b.failed_count;
  completed_at = some b.completed_at;
  transaction_ids = some (tx_arg b);
}

-- `Job.ToDomain` of the row that `GetByBatch` scans
unfoldable pub job_to_domain : JobRow → Job
job_to_domain r = record {
  id = r.id;
  batch_id = r.batch_id;
  row_number = r.row_number;
  status = r.status;
  input_data = r.input_data;
  billing_transaction_id = r.billing_transaction_id;
}

stored_input : InputData → InputData
stored_input InputData.empty = InputData.object []
stored_input d = d

-- The row that `JobRepository.Create` inserts; an empty text becomes "{}".
unfoldable pub job_columns : Job → JobRow
unfolding stored_input
job_columns j = record {
  id = j.id;
  batch_id = j.batch_id;
  row_number = j.row_number;
  status = j.status;
  input_data = stored_input j.input_data;
  build_id = none;
  barcode_urls = none;
  error_code = none;
  error_message = none;
  billing_transaction_id = j.billing_transaction_id;
}

-- `Result.ToPort` of the row that `GetResultsByBatch` scans
unfoldable pub to_port : JobRow → JobResult
unfolding text_or_empty
to_port r = record {
  job_id = r.id;
  row_number = r.row_number;
  build_id = text_or_empty r.build_id;
  barcode_urls = text_or_empty r.barcode_urls;
  error_code = text_or_empty r.error_code;
  error_message = text_or_empty r.error_message;
  billing_transaction_id = "";
}
