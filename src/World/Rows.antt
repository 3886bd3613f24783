-- ===== src/World/Rows.antt =====
-- The rows of the tables `batches` and `batch_jobs` (migrations/001_init.sql).
use bulk.Base.{String, Bool, Option}
use bulk.Base.Int.{ℤ}
use bulk.Domain.{BatchStatus, JobStatus, Time, InputData}

-- A JSON value, for the JSONB column `transaction_ids`. Numbers are integers.
mutual
  pub data Json : Type 0 where
    null : Json
    bool : Bool → Json
    num : ℤ → Json
    str : String → Json
    arr : Items → Json
    obj : Members → Json

  pub data Items : Type 0 where
    nil : Items
    cons : Json → Items → Items

  pub data Members : Type 0 where
    end : Members
    member : String → Json → Members → Members

pub record BatchRow : Type 0 where
  pub id : String
  pub user_id : Option String
  pub status : BatchStatus
  pub revision : String
  pub file_storage_id : Option String
  pub total_rows : ℤ
  pub valid_rows : ℤ
  pub approved_count : ℤ
  pub completed_count : ℤ
  pub failed_count : ℤ
  pub created_at : Time
  pub completed_at : Option Time
  pub transaction_ids : Option Json

pub record JobRow : Type 0 where
  pub id : String
  pub batch_id : String
  pub row_number : ℤ
  pub status : JobStatus
  pub input_data : InputData
  pub build_id : Option String
  pub barcode_urls : Option String
  pub error_code : Option String
  pub error_message : Option String
  pub billing_transaction_id : Option String
