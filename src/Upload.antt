-- ===== src/Upload.antt =====
-- `Service.CreateBatchFromFile` of internal/usecase/bulk/service.go: a file becomes a batch with its
-- jobs. Logging and metrics are left out. The file is given by its size, by the error of reading it,
-- and by what `ReadFirstSheet` finds in it; the validation BFF is a parameter, which may answer each
-- call in its own way; Go's regular expressions and `strings` are parameters as in the parts used.
pub mod Jobs
pub mod Counts
pub mod Client
pub mod Outage
pub mod Stored
use Prim.Native.String.{◌++◌ as append_text}
use bulk.Base.{
  ℕ, suc, ◌+◌, String, Bool, true, false, not, List, [], ◌∷◌, ◌++◌, map, length, Option, none, some,
  if◌then◌else◌,
}
use bulk.Base.Int.{ℤ, pos, ◌*ℤ◌, wrap_64, ltb_ℤ}
use bulk.Domain.{Batch, Job, BatchStatus, JobStatus, Fields, InputData, RowError}
use bulk.World.{
  World, Env, Action, Error, Result, ok, err, file_too_large, saved, pure, raise, ignore, attempt,
  next_call, record_event, from_result, ◌>>=◌, ◌>>◌,
}
use bulk.Postgres.Repositories.{create_batch, save_batch, create_job}
use bulk.Validation.Rules.{FieldError, ValidationResult, load_rules, validate_row}
use bulk.Parser.Columns.{TextOps}
use bulk.Parser.Sheet.{XlsParser, Row, parse}

-- The limits of the service, and the variables MAX_ROWS_PER_BATCH and MAX_FILE_SIZE_MB where they are
-- set to a number.
pub record Settings : Type 0 where
  pub max_file_size : ℤ
  pub max_rows_per_batch : ℤ
  pub env_max_rows : Option ℤ
  pub env_max_megabytes : Option ℤ

pub record File : Type 0 where
  pub size : ℕ
  pub read_fault : Option Error
  pub sheet : Result (List (List String))

-- An answer of the validation BFF: an error with its text, no result, or a result.
pub data BffReply : Type 0 where
  failed : String → BffReply
  absent : BffReply
  verdict : ValidationResult → BffReply

-- Which parts of the service are set. The validator answers call number n on a row and a revision.
pub record Uploader : Type 0 where
  pub batch_repo : Bool
  pub job_repo : Bool
  pub storage : Bool
  pub validator : Option (ℕ → Fields → String → BffReply)

-- The counters of the loop over the rows.
pub record Checked : Type 0 where
  pub valid : ℕ
  pub invalid : ℕ
  pub errors : List RowError

pub record CreateBatchResult : Type 0 where
  pub batch_id : String
  pub total_rows : ℕ
  pub valid_rows : ℕ
  pub invalid_rows : ℕ
  pub errors : List RowError

abbrev or_default : Option ℤ → ℤ → ℤ
or_default none d = d
or_default (some n) d = n

abbrev megabytes : Option ℤ → Option ℤ
megabytes none = none
megabytes (some n) = some (wrap_64 (n *ℤ pos 1048576))

-- `NewXLSParser(maxRows, 0, maxFileBytes)`; the bytes of the megabytes wrap around.
unfoldable pub parser_of : Settings → XlsParser
parser_of s = record {
  max_rows = or_default s.env_max_rows s.max_rows_per_batch;
  max_cols = pos 0;
  max_file_size = or_default (megabytes s.env_max_megabytes) s.max_file_size;
}

abbrev row_error : ℕ → String → String → RowError
row_error i code message = record {
  row_number = pos i;
  field = "";
  error_code = code;
  error_message = message;
  original_value = "";
}

abbrev row_errors : ℕ → List FieldError → List RowError
row_errors i errors = map (λ e. row_error i e.code e.message) errors

-- Whether row i passes, with the errors that it adds.
pub judge_reply : ℕ → BffReply → Bool × List RowError
judge_reply i (failed message) = (false, row_error i "VALIDATOR_ERROR" message ∷ [])
judge_reply i absent = (false, row_error i "INVALID_ROW" "row validation failed" ∷ [])
judge_reply i (verdict r) = if r.valid then (true, []) else (false, row_errors i r.errors)

abbrev pub count_row : Bool × List RowError → Checked → Checked
count_row (passes, errors) c =
    if passes
    then record c { valid = c.valid + 1; errors = c.errors ++ errors }
    else record c { invalid = c.invalid + 1; errors = c.errors ++ errors }

-- The batch as it is first stored.
abbrev pub new_batch : String → String → ℕ → Batch
new_batch k revision total = record {
  id = k;
  user_id = "";
  status = BatchStatus.pending;
  revision = revision;
  file_storage_id = "";
  total_rows = pos total;
  valid_rows = pos total;
  created_at = 0;
  approved_count = pos 0;
  completed_count = pos 0;
  failed_count = pos 0;
  completed_at = none;
  billing_transaction_ids = [];
  priority = "";
  timeout_ms = pos 0;
}

abbrev pub new_job : String → String → Row → Job
new_job id k row = record {
  id = id;
  batch_id = k;
  row_number = pos row.row_number;
  status = JobStatus.pending;
  input_data = InputData.object row.fields;
  billing_transaction_id = none;
}

abbrev result_of : String → ℕ → Checked → CreateBatchResult
result_of k total c = record {
  batch_id = k;
  total_rows = total;
  valid_rows = c.valid;
  invalid_rows = c.invalid;
  errors = c.errors;
}

module _ (env : Env) (u : Uploader) (matches : String → String → Bool) (text : TextOps)
    (revision : String) where
  -- The local check of row i, and the BFF's check of a row that passes it.
  unfoldable pub judge_row : ℕ → Fields → Action (Bool × List RowError)
  unfolding judge_reply
  judge_row i fields =
      let here = validate_row matches (load_rules revision) fields in
      if not here.valid then pure (false, row_errors i here.errors) else elim u.validator [
        | none ↦ pure (true, [])
        | some ask ↦ (do n ← next_call; pure (judge_reply i (ask n fields revision)))
      ]

  -- The job of a row, valid or not; an error of the store is passed over.
  unfoldable pub store_job : String → Row → Action (Unit {0})
  store_job k row =
      if u.job_repo
      then (do n ← next_call; ignore (create_job env (new_job (env.uuid n) k row)))
      else pure tt

  -- `for i, row := range pres.Rows`
  unfoldable pub check_rows : String → ℕ → Checked → List Row → Action Checked
  check_rows k i c [] = pure c
  check_rows k i c (row ∷ rows) = do
    found ← judge_row i row.fields
    store_job k row
    check_rows k (suc i) (count_row found c) rows

  save_file : String → Batch → Action Batch
  save_file k b =
      if u.storage
      then (do
        n ← next_call
        record_event (saved (append_text k ".xlsx"))
        id ← from_result (env.save_reply n)
        pure (record b { file_storage_id = id }))
      else pure b

  -- What follows the loop.
  unfoldable pub finish_upload : String → Batch → Checked → Action (Unit {0})
  unfolding save_file
  finish_upload k b c = do
    b' ← save_file k (record b { valid_rows = pos c.valid })
    if u.batch_repo then ignore (save_batch env b') else pure tt

  -- `CreateBatchFromFile` from the rows that were parsed on.
  unfoldable pub create_from_rows : List Row → Action CreateBatchResult
  create_from_rows rows = do
    n ← next_call
    let k = env.uuid n
    let b = new_batch k revision (length rows)
    if u.batch_repo then create_batch env b else pure tt
    c ← check_rows k 0 (record { valid = 0; invalid = 0; errors = [] }) rows
    finish_upload k b c
    pure (result_of k (length rows) c)

  create_parsed : Result (List Row) → Action CreateBatchResult
  create_parsed (err e) = raise e
  create_parsed (ok rows) = create_from_rows rows

  -- `CreateBatchFromFile`: no more than one byte past the limit is read.
  unfoldable pub create_batch_from_file : Settings → File → Action CreateBatchResult
  unfolding parser_of create_parsed
  create_batch_from_file s file = elim file.read_fault [
    | some e ↦ raise e
    | none ↦
        if ltb_ℤ s.max_file_size (pos file.size)
        then raise file_too_large
        else create_parsed (parse text (parser_of s) revision file.size file.sheet)
  ]
