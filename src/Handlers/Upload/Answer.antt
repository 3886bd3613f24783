-- ===== src/Handlers/Upload/Answer.antt =====
-- What a client is told of an upload, against what is stored.
use bulk.Base.{ℕ, suc, ◌≡◌, true, false, ◌&&◌, Option, none, some, arith, str_eq}
use bulk.Base.Int.{ℤ, pos, ◌+ℤ◌, ltb_ℤ}
use bulk.Domain.{Batch, BatchStatus}
use bulk.World.{World, Env, Error, Quote, ok, err}
use bulk.Postgres.RoundTrip.{stored, saved_over}
use bulk.Manager.{BatchManager, finalize_after_upload}
use bulk.Manager.Finalize.{finalized, finalize_after_upload-stored}
use bulk.Upload.{CreateBatchResult, create_batch_from_file}
use bulk.Handlers.Reply.{Reply, reply, failure, Deps}
use bulk.Handlers.Upload.{
  UploadReply, has_errors, is_ready, is_partial, UploadRequest, UploadService, given, quote_answer,
  quote_upload, finalize, answer_upload, create, check_file, handle_upload,
}
use bulk.Handlers.Upload.Sniff.{UploadFile, Sniffer, validate_upload}

-- The status of the batch by an answer.
abbrev pub told_status : Reply UploadReply → Option BatchStatus
told_status (reply _ (has_errors _)) = some BatchStatus.validation_errors
told_status (reply _ (is_ready _ _)) = some BatchStatus.ready
told_status (reply _ (is_partial _ _ _)) = some BatchStatus.partial_available
told_status (failure _ _ _) = none

module _ (env : Env) (d : Deps) (service : Option UploadService) (m : BatchManager)
    (up : (n : ℕ) → env.store_fault n ≡ none) (hm : d.batch_manager ≡ some m)
    (hb : m.batch_repo ≡ true) (mq : m.billing ≡ true) (dq : d.billing ≡ true) (q : Quote)
    (same : (n : ℕ) → env.quote_reply n ≡ ok (some q)) where
  answer_upload-told :
      (res : CreateBatchResult) (w : World) (b : Batch)
      → stored res.batch_id w ≡ some b
      → let r = answer_upload env d service res w in
        (c : Batch) × (stored res.batch_id r.1 ≡ some c) × (told_status r.0 ≡ some c.status)
  unfolding answer_upload finalize quote_upload quote_answer
  answer_upload-told res w b s =
      let valid = pos res.valid_rows in
      let invalid = pos res.invalid_rows in
      let w1 = (finalize_after_upload env m res.batch_id valid invalid w).1 in
      let after = finalize_after_upload-stored env m w res.batch_id b valid invalid up hb s in
      (
        saved_over b (finalized b valid invalid (some q.allowed_total)),
        ground (arith, after, hm, mq, dq, same w1.calls, same (suc w.calls)),
        ground (arith, after, hm, mq, dq, same w1.calls, same (suc w.calls)),
      )

-- A request that passes every test of the handler, of a file from which the service makes a batch.
pub record IsAccepted (env : Env) (service : Option UploadService) (sniffer : Sniffer)
    (max_file_size : ℤ) (req : UploadRequest) (w : World) (res : CreateBatchResult) (w1 : World)
    : Type 0 where
  pub file : UploadFile
  pub upload_service : UploadService
  pub sent : req.form_file ≡ given file
  pub set : service ≡ some upload_service
  pub small :
      (ltb_ℤ (pos 0) req.content_length && ltb_ℤ (max_file_size +ℤ pos 16384) req.content_length)
      ≡ false
  pub taken : validate_upload sniffer max_file_size file ≡ none
  pub named : str_eq req.revision "" ≡ false
  pub made :
      create_batch_from_file env upload_service.uploader upload_service.matches upload_service.text
        req.revision upload_service.settings file.file w
      ≡ (ok res, w1)

handle_upload_accepted :
    (env : Env) (d : Deps) (service : Option UploadService) (sniffer : Sniffer) (max_file_size : ℤ)
    (req : UploadRequest) (w : World) (res : CreateBatchResult) (w1 : World)
    → IsAccepted env service sniffer max_file_size req w res w1
    → handle_upload env d service sniffer max_file_size req w ≡ answer_upload env d service res w1
unfolding handle_upload check_file create
handle_upload_accepted env d service sniffer max_file_size req w res w1 a =
    ground (arith, a.sent, a.set, a.small, a.taken, a.named, a.made)

-- An accepted upload, with a store that answers, and a billing that answers each time with one quote:
-- the client is told the status under which the batch is stored after the upload.
pub handle_upload-told_status :
    (env : Env) (d : Deps) (service : Option UploadService) (sniffer : Sniffer) (max_file_size : ℤ)
    (req : UploadRequest) (w : World) (res : CreateBatchResult) (w1 : World) (m : BatchManager)
    (q : Quote) (b : Batch)
    → ((n : ℕ) → env.store_fault n ≡ none)
    → ((n : ℕ) → env.quote_reply n ≡ ok (some q))
    → d.batch_manager ≡ some m
    → m.batch_repo ≡ true
    → m.billing ≡ true
    → d.billing ≡ true
    → IsAccepted env service sniffer max_file_size req w res w1
    → stored res.batch_id w1 ≡ some b
    → let r = handle_upload env d service sniffer max_file_size req w in
      (c : Batch) × (stored res.batch_id r.1 ≡ some c) × (told_status r.0 ≡ some c.status)
handle_upload-told_status env d service sniffer max_file_size req w res w1 m q b up same hm hb mq dq
      a s =
    rw (handle_upload_accepted env d service sniffer max_file_size req w res w1 a)
      (answer_upload-told env d service m up hm hb mq dq q same res w1 b s)

-- An accepted upload of valid rows, with a store that answers and a billing that does not: the
-- client is answered with 503, and the batch is stored as ready to be confirmed.
pub handle_upload_no_quote :
    (env : Env) (d : Deps) (service : Option UploadService) (sniffer : Sniffer) (max_file_size : ℤ)
    (req : UploadRequest) (w : World) (res : CreateBatchResult) (w1 : World) (m : BatchManager)
    (b : Batch)
    → ((n : ℕ) → env.store_fault n ≡ none)
    → ((n : ℕ) → (e : Error) × (env.quote_reply n ≡ err e))
    → d.batch_manager ≡ some m
    → m.batch_repo ≡ true
    → m.billing ≡ true
    → d.billing ≡ true
    → IsAccepted env service sniffer max_file_size req w res w1
    → res.invalid_rows ≡ 0
    → stored res.batch_id w1 ≡ some b
    → let r = handle_upload env d service sniffer max_file_size req w in
      (r.0 ≡ failure 503 "BILLING_ERROR" "billing quote failed")
      × (stored res.batch_id r.1
          ≡ some (
              saved_over b
                (record b { valid_rows = pos res.valid_rows; status = BatchStatus.ready })))
unfolding answer_upload finalize quote_upload
handle_upload_no_quote env d service sniffer max_file_size req w res w1 m b up down hm hb mq dq a
      none_invalid s =
    let valid = pos res.valid_rows in
    let w2 = (finalize_after_upload env m res.batch_id valid (pos 0) w1).1 in
    let after = finalize_after_upload-stored env m w1 res.batch_id b valid (pos 0) up hb s in
    rw (handle_upload_accepted env d service sniffer max_file_size req w res w1 a, none_invalid)
      (ground (arith, after, hm, mq, dq, down (suc w1.calls), down w2.calls))
