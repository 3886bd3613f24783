-- ===== src/Handlers/Exports.antt =====
-- internal/transport/http/handlers/export_async.go: `HandleStartExport`, POST /batch/:id/export, and
-- `HandleGetExport`, GET /export/:id. The file storage is a parameter, which
-- `over_minio` fills.
pub mod Ended
pub mod Saved
use bulk.Base.{ℕ, ◌+◌, String, Bool, Option, none, some, if◌then◌else◌, str_eq}
use bulk.Domain.{Time}
use bulk.Storage.{StoredFile, Minio, PathText, FileClient, presign, get_file}
use bulk.World.{Result, ok, err}
use bulk.Exporter.{Manager, ExportResult, ExportStatus, Answer, enqueue, get}
use bulk.Handlers.Reply.{Reply, reply, failure}

-- `Presign` and `Get` of the storage, `none` where they fail.
pub record FileStore : Type 0 where
  pub presign : String → Option String
  pub open_file : String → Option StoredFile

abbrev to_option : {A : Type 0} → Result A → Option A
to_option (ok a) = some a
to_option (err e) = none

-- The storage as a client fills it, with URLs that expire after `ttl`.
unfoldable pub over_minio :
    {S : Type 0} → Minio S → PathText → Option FileClient → ℕ → S → FileStore
over_minio m p f ttl s = record {
  presign = λ id. to_option (presign m p f id ttl s);
  open_file = λ id. to_option (get_file m p f id s);
}

pub data ExportReply : Type 0 where
  -- The export, with a URL for its file and the time at which that expires.
  presigned : ExportResult → String → Time → ExportReply
  file_of : ExportResult → String → ExportReply
  shown : ExportResult → ExportReply

-- What is answered, with the texts of the errors of `Enqueue`.
start_answer : String → Answer → Reply (String × String)
start_answer id Answer.accepted = reply 202 (id, "queued")
start_answer id Answer.already_exists = failure 400 "VALIDATION_ERROR" "export already exists"
start_answer id Answer.queue_full = failure 400 "VALIDATION_ERROR" "export queue full"

-- `HandleStartExport`
pub handle_start_export : Option Manager → String → Time → Reply (String × String) × Option Manager
unfolding start_answer
handle_start_export none id now =
    (failure 404 "MISSING_DEPENDENCY" "export manager not configured", none)
handle_start_export (some m) id now = let (a, m') = enqueue id now m in (start_answer id a, some m')

-- The contents of the file, or the export alone.
proxy : FileStore → ExportResult → Reply ExportReply
proxy s r = elim (s.open_file r.storage_id) [
  | none ↦ reply 200 (shown r)
  | some f ↦
      if f.breaks_off
      then failure 500 "SERVICE_ERROR" "failed to stream file"
      else reply 200 (file_of r f.content)
]

-- What is answered for an export that is there.
show_export : ℕ → Option FileStore → ExportResult → Bool → Time → Reply ExportReply
unfolding proxy
show_export ttl none r download now = reply 200 (shown r)
show_export ttl (some s) r download now =
    if str_eq r.storage_id ""
    then reply 200 (shown r)
    else if download
    then proxy s r
    else elim (s.presign r.storage_id) [
      | none ↦ proxy s r
      | some url ↦ reply 200 (presigned r url (now + ttl))
    ]

-- `HandleGetExport`; `ttl` is `ExportPresignTTL`.
pub handle_get_export :
    ℕ → Option FileStore → Option Manager → String → Bool → Time → Reply ExportReply
unfolding show_export
handle_get_export ttl store none id download now =
    failure 404 "MISSING_DEPENDENCY" "export manager not configured"
handle_get_export ttl store (some m) id download now = elim (get id m) [
  | none ↦ failure 404 "NOT_FOUND" "export not found"
  | some r ↦ show_export ttl store r download now
]
