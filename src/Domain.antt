-- ===== src/Domain.antt =====
-- internal/domain/domain.go, internal/ports/ports.go and internal/kafka/events.go: the values that
-- the components hand to one another. Times are counted from Go's zero time, so 0 is the zero value.
-- Go's `int` is an unbounded ℤ here: the fields hold row counts of one upload.
use bulk.Base.{ℕ, String, List, Option, str_eq, if◌then◌else◌}
use bulk.Base.Int.{ℤ}

abbrev pub Time : Type 0
Time = ℕ

-- A batch's status; `other` is any text that is no constant of the package.
pub data BatchStatus : Type 0 where
  pending validation_errors partial_available ready processing completed cancelled : BatchStatus
  other : String → BatchStatus

-- A job's status.
pub data JobStatus : Type 0 where
  pending queued processing completed failed refunded : JobStatus
  other : String → JobStatus

-- `domain.JobStatus(s)`, the conversion from the text of a message.
unfoldable pub job_status : String → JobStatus
job_status s =
    if str_eq s "pending"
    then JobStatus.pending
    else if str_eq s "queued"
    then JobStatus.queued
    else if str_eq s "processing"
    then JobStatus.processing
    else if str_eq s "completed"
    then JobStatus.completed
    else if str_eq s "failed"
    then JobStatus.failed
    else if str_eq s "refunded"
    then JobStatus.refunded
    else JobStatus.other s

pub record Batch : Type 0 where
  pub id : String
  pub user_id : String
  pub status : BatchStatus
  pub revision : String
  pub file_storage_id : String
  pub total_rows : ℤ
  pub valid_rows : ℤ
  pub created_at : Time
  pub approved_count : ℤ
  pub completed_count : ℤ
  pub failed_count : ℤ
  pub completed_at : Option Time
  pub billing_transaction_ids : List String
  pub priority : String
  pub timeout_ms : ℤ

-- The JSON text of a `map[string]string`.
abbrev pub Fields : Type 0
Fields = List (String × String)

-- The text in `Job.InputData`: empty, the JSON of a map of texts, or JSON of another shape.
pub data InputData : Type 0 where
  empty malformed : InputData
  object : Fields → InputData

pub record Job : Type 0 where
  pub id : String
  pub batch_id : String
  pub row_number : ℤ
  pub status : JobStatus
  pub input_data : InputData
  pub billing_transaction_id : Option String

-- `ports.JobResult`; the barcode URLs are the JSON text in which they are stored.
pub record JobResult : Type 0 where
  pub job_id : String
  pub row_number : ℤ
  pub build_id : String
  pub barcode_urls : String
  pub error_code : String
  pub error_message : String
  pub billing_transaction_id : String

-- `ports.ValidationError`
pub record RowError : Type 0 where
  pub row_number : ℤ
  pub field : String
  pub error_code : String
  pub error_message : String
  pub original_value : String

-- `kafka.BulkResultEvent`; `billing` is the transaction id of the billing block, if there is one.
pub record BulkResultEvent : Type 0 where
  pub job_id : String
  pub batch_id : String
  pub status : String
  pub build_id : String
  pub barcode_urls : Option Fields
  pub billing : Option String
