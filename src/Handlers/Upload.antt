-- ===== src/Handlers/Upload.antt =====
-- `HandleUpload`: POST /upload. The metrics of refused uploads are left out.
pub mod Sniff
pub mod Answer
use bulk.Base.{
  ℕ, ◌+◌, String, Bool, true, false, ◌&&◌, not, List, [], ◌∷◌, Option, none, some, if◌then◌else◌,
  str_eq, ltb,
}
use bulk.Base.Int.{ℤ, pos, ◌+ℤ◌, ◌-ℤ◌, ◌*ℤ◌, ltb_ℤ}
use bulk.Domain.{RowError}
use bulk.World.{
  World, Env, Action, Error, Result, ok, err, empty_file, too_many_rows, invalid_headers, Quote,
  Ratio,
}
use bulk.Outside.{quote}
use bulk.Manager.{BatchManager, finalize_after_upload}
use bulk.Parser.Columns.{TextOps}
use bulk.Upload.{Uploader, Settings, CreateBatchResult, create_batch_from_file}
use bulk.Handlers.Reply.{Reply, reply, failure, Run, Handler, ◌>>=◌, ◌>>◌, answer, fail, Deps}
use bulk.Handlers.Upload.Sniff.{UploadError, UploadFile, Sniffer, validate_upload}

-- `c.Request.FormFile("file")`: a body past the limit, no file, or the file.
pub data FormFile : Type 0 where
  body_too_large missing : FormFile
  given : UploadFile → FormFile

-- `content_length` is -1 where it is not known; `revision` is empty where it is not given.
pub record UploadRequest : Type 0 where
  pub content_length : ℤ
  pub form_file : FormFile
  pub revision : String

-- `billingInfo`. A source with 0 units is not shown. The price and the estimated cost are there where
-- the unit price is not 0; canGenerate repeats canProcess.
pub record BillingInfo : Type 0 where
  pub can_process : Bool
  pub requested : ℕ
  pub allowed_total : ℤ
  pub subscription : ℤ
  pub credits : ℤ
  pub wallet : ℤ
  pub shortfall : Option ℤ
  pub unit_price : Option Ratio
  pub estimated_cost : Option Ratio

-- The answers about a batch that was created. The last one has the code PARTIAL_AVAILABLE, and offers
-- the allowed total.
pub data UploadReply : Type 0 where
  has_errors : CreateBatchResult → UploadReply
  is_ready : CreateBatchResult → Option BillingInfo → UploadReply
  is_partial : String → BillingInfo → ℤ → UploadReply

cost : ℕ → Option Ratio → Option Ratio
unfolding ◌*ℤ◌
cost valid none = none
cost valid (some price) = some (record { num = pos valid *ℤ price.num; den = price.den })

unfoldable pub billing_info : ℕ → Quote → BillingInfo
unfolding cost ◌-ℤ◌
billing_info valid q = record {
  can_process = q.can_process;
  requested = valid;
  allowed_total = q.allowed_total;
  subscription = q.subscription;
  credits = q.credits;
  wallet = q.wallet;
  shortfall =
      if ltb_ℤ q.allowed_total (pos valid) then some (pos valid -ℤ q.allowed_total) else none;
  unit_price = q.unit_price;
  estimated_cost = cost valid q.unit_price;
}

-- `parserErrorResponse`, and the answer for every error that it does not know.
unfoldable pub upload_failure : Error → Reply UploadReply
upload_failure empty_file = failure 400 "EMPTY_FILE" "file is empty"
upload_failure too_many_rows = failure 400 "TOO_MANY_ROWS" "too many rows"
upload_failure invalid_headers = failure 400 "INVALID_HEADERS" "invalid headers"
upload_failure _ = failure 400 "INVALID_FILE_FORMAT" "failed to parse file"

invalid_upload : UploadError → Reply UploadReply
invalid_upload UploadError.too_large = failure 413 "FILE_TOO_LARGE" "file too large"
invalid_upload UploadError.invalid_format = failure 400 "INVALID_FILE_FORMAT" "invalid file format"
invalid_upload UploadError.invalid_content_type =
    failure 400 "INVALID_FILE_FORMAT" "invalid content type"
invalid_upload (UploadError.unreadable message) = failure 400 "VALIDATION_ERROR" message

-- What `CreateBatchFromFile` of the service stands on.
pub record UploadService : Type 0 where
  pub uploader : Uploader
  pub matches : String → String → Bool
  pub text : TextOps
  pub settings : Settings

module _ (env : Env) (d : Deps) (service : Option UploadService) where
  quote_answer : CreateBatchResult → Option Quote → Reply UploadReply
  unfolding billing_info
  quote_answer res none = failure 500 "" ""
  quote_answer res (some q) =
      let info = billing_info res.valid_rows q in
      if not (ltb_ℤ q.allowed_total (pos res.valid_rows))
      then reply 200 (is_ready res (some info))
      else reply 402 (is_partial res.batch_id info q.allowed_total)

  -- Billing is asked once more. A nil quote without an error is a nil dereference, which gin's recovery
  -- answers.
  quote_upload : CreateBatchResult → Handler UploadReply
  unfolding quote_answer
  quote_upload res =
      if d.billing
      then (do
        asked ← quote env "" (pos res.valid_rows)
        elim asked [
          | err e ↦ fail 503 "BILLING_ERROR" "billing quote failed"
          | ok q ↦ answer (quote_answer res q)
        ])
      else answer (reply 200 (is_ready res none))

  finalize : CreateBatchResult → Run (Result (Unit {0}))
  finalize res = elim d.batch_manager [
    | none ↦ answer (ok tt)
    | some m ↦ finalize_after_upload env m res.batch_id (pos res.valid_rows) (pos res.invalid_rows)
  ]

  -- What follows `CreateBatchFromFile`.
  pub answer_upload : CreateBatchResult → Handler UploadReply
  unfolding finalize quote_upload
  answer_upload res = do
    finalize res
    if ltb 0 res.invalid_rows then answer (reply 200 (has_errors res)) else quote_upload res

  create : UploadFile → String → Handler UploadReply
  unfolding answer_upload upload_failure
  create file revision =
      if str_eq revision ""
      then fail 400 "MISSING_REVISION" "revision is required"
      else elim service [
        | none ↦ fail 500 "SERVER_ERROR" "service unavailable"
        | some v ↦ (do
          created ←
              create_batch_from_file env v.uploader v.matches v.text revision v.settings file.file
          elim created [ err e ↦ answer (upload_failure e) | ok res ↦ answer_upload res ])
      ]

  module _ (sniffer : Sniffer) (max_file_size : ℤ) where
    check_file : FormFile → String → Handler UploadReply
    unfolding create invalid_upload
    check_file body_too_large revision = fail 413 "FILE_TOO_LARGE" "file too large"
    check_file missing revision = fail 400 "VALIDATION_ERROR" "file is required"
    check_file (given file) revision = elim (validate_upload sniffer max_file_size file) [
      | some e ↦ answer (invalid_upload e)
      | none ↦ create file revision
    ]

    -- `HandleUpload`, with 16 KiB for what surrounds the file in the body.
    unfoldable pub handle_upload : UploadRequest → Handler UploadReply
    unfolding check_file ◌+ℤ◌
    handle_upload req =
        if ltb_ℤ (pos 0) req.content_length && ltb_ℤ (max_file_size +ℤ pos 16384) req.content_length
        then fail 413 "FILE_TOO_LARGE" "file too large"
        else check_file req.form_file req.revision
