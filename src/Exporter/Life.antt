-- ===== src/Exporter/Life.antt =====
-- The life of one export.
use bulk.Base.{String, ◌≡◌, true, [], none, some, arith, ltb, insert, lookup-insert, eq_iff}
use bulk.Domain.{Time}
use bulk.Exporter.{
  Manager, ExportStatus, Outcome, Answer, new_result, enqueue, offer, take_next, start_export,
  finish, settled, get,
}

-- A free worker with an empty queue: an export that is not known is accepted, and after the worker has
-- taken it and stored its outcome it is done, with the file's id, or failed, with the error; the
-- worker is free again.
pub enqueue-finish :
    (id : String) (t₁ t₂ t₃ : Time) (o : Outcome) (m : Manager)
    → m.current ≡ none
    → m.queue ≡ []
    → ltb 0 m.capacity ≡ true
    → get id m ≡ none
    → let e = enqueue id t₁ m in
      let after = finish o t₃ (take_next t₂ e.1) in
      (e.0 ≡ Answer.accepted)
      × (after.current ≡ none)
      × (after.queue ≡ [])
      × (get id after
          ≡ some (
              settled o t₃
                (record (new_result id t₁) { status = ExportStatus.running; updated_at = t₂ })))
unfolding enqueue offer take_next start_export finish get
enqueue-finish id t₁ t₂ t₃ o m idle empty room unknown = ground (
  arith,
  eq_iff id id,
  lookup-insert id id (new_result id t₁) m.results,
  lookup-insert id id (record (new_result id t₁) { status = ExportStatus.running; updated_at = t₂ })
      (insert id (new_result id t₁) m.results),
  lookup-insert id id
      (settled o t₃ (record (new_result id t₁) { status = ExportStatus.running; updated_at = t₂ }))
      (insert id (record (new_result id t₁) { status = ExportStatus.running; updated_at = t₂ })
        (insert id (new_result id t₁) m.results)),
)
