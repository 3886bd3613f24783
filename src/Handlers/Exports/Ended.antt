-- ===== src/Handlers/Exports/Ended.antt =====
-- An export from its start to its file.
use bulk.Base.{ℕ, ◌+◌, String, ◌≡◌, ◌≢◌, true, false, [], none, some, arith, ltb, eq_iff}
use bulk.Domain.{Time}
use bulk.Exporter.{
  Manager, ExportResult, ExportStatus, Outcome, new_result, enqueue, take_next, finish, settled,
  get,
}
use bulk.Exporter.Life.{enqueue-finish}
use bulk.Handlers.Reply.{reply}
use bulk.Handlers.Exports.{
  FileStore, presigned, shown, start_answer, handle_start_export, handle_get_export, show_export,
}

-- An export of `id` that was asked for at t₁ and taken at t₂, once its outcome is stored at t₃.
abbrev pub ended : String → Time → Time → Time → Outcome → ExportResult
ended id t₁ t₂ t₃ o =
    settled o t₃ (record (new_result id t₁) { status = ExportStatus.running; updated_at = t₂ })

-- A free worker with an empty queue: an export that is not known is answered as queued. Once the worker
-- has stored its outcome, a request for it is answered with a URL of the file, if a file was stored for
-- which the storage gives one, and with the error if it failed.
pub handle_get_export-ended :
    (ttl : ℕ) (s : FileStore) (id file url e : String) (t₁ t₂ t₃ now : Time) (m : Manager)
    → m.current ≡ none
    → m.queue ≡ []
    → ltb 0 m.capacity ≡ true
    → get id m ≡ none
    → file ≢ ""
    → s.presign file ≡ some url
    → let after = λ (o : Outcome). finish o t₃ (take_next t₂ (enqueue id t₁ m).1) in
      let done = Outcome.stored_as file in
      let failed = Outcome.failed_with e in
      (handle_start_export (some m) id t₁ ≡ (reply 202 (id, "queued"), some (enqueue id t₁ m).1))
      × (handle_get_export ttl (some s) (some (after done)) id false now
          ≡ reply 200 (presigned (ended id t₁ t₂ t₃ done) url (now + ttl)))
      × (handle_get_export ttl (some s) (some (after failed)) id false now
          ≡ reply 200 (shown (ended id t₁ t₂ t₃ failed)))
unfolding handle_start_export handle_get_export show_export start_answer settled
handle_get_export-ended ttl s id file url e t₁ t₂ t₃ now m idle empty room unknown named signed =
    let (taken, _, _, with_file) =
      enqueue-finish id t₁ t₂ t₃ (Outcome.stored_as file) m idle empty room unknown in
    let (_, _, _, with_error) =
      enqueue-finish id t₁ t₂ t₃ (Outcome.failed_with e) m idle empty room unknown in
    ground (arith, taken, with_file, with_error, eq_iff file "", signed)
