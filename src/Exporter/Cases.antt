-- ===== src/Exporter/Cases.antt =====
-- The steps of the exporter, case by case.
use bulk.Base.{
  String, ◌≡◌, true, false, List, [], ◌∷◌, ◌++◌, length, none, some, arith, ltb, lookup, insert,
  All,
}
use bulk.Domain.{Time}
use bulk.Exporter.{
  Manager, ExportResult, ExportStatus, Outcome, Answer, new_result, enqueue, offer, take_next,
  start_export, finish, settled,
}

pub All-append :
    (P : String → Type 0) (xs : List String) (y : String) → All P xs → P y → All P (xs ++ y ∷ [])
All-append P [] y h k = (k, tt)
All-append P (x ∷ xs) y h k = (h.0, All-append P xs y h.1 k)

module _ (k : String) (now : Time) (m : Manager) where
  pub enqueue_known :
      (x : ExportResult)
      → lookup k m.results ≡ some x
      → enqueue k now m ≡ (Answer.already_exists, m)
  unfolding enqueue
  enqueue_known x e = ground arith

  pub enqueue_new :
      lookup k m.results ≡ none
      → enqueue k now m ≡ offer k (record m { results = insert k (new_result k now) m.results })
  unfolding enqueue
  enqueue_new e = ground arith

  pub offer_room :
      ltb (length m.queue) m.capacity ≡ true
      → offer k m ≡ (Answer.accepted, record m { queue = m.queue ++ k ∷ [] })
  unfolding offer
  offer_room e = ground arith

  pub offer_full : ltb (length m.queue) m.capacity ≡ false → offer k m ≡ (Answer.queue_full, m)
  unfolding offer
  offer_full e = ground arith

  pub take_next_busy : m.current ≡ some k → take_next now m ≡ m
  unfolding take_next
  take_next_busy e = ground arith

  pub take_next_empty : m.current ≡ none → m.queue ≡ [] → take_next now m ≡ m
  unfolding take_next
  take_next_empty e q = ground arith

  pub take_next_head :
      (ks : List String)
      → m.current ≡ none
      → m.queue ≡ k ∷ ks
      → take_next now m ≡ start_export k now (record m { queue = ks })
  unfolding take_next
  take_next_head ks e q = ground arith

  pub start_export_missing : lookup k m.results ≡ none → start_export k now m ≡ m
  unfolding start_export
  start_export_missing e = ground arith

  pub start_export_known :
      (x : ExportResult)
      → lookup k m.results ≡ some x
      → start_export k now m ≡ record m {
        results = insert k (record x { status = ExportStatus.running; updated_at = now }) m.results;
        current = some k;
      }
  unfolding start_export
  start_export_known x e = ground arith

  pub finish_free : (o : Outcome) → m.current ≡ none → finish o now m ≡ m
  unfolding finish
  finish_free o e = ground arith

  pub finish_missing :
      (o : Outcome)
      → m.current ≡ some k
      → lookup k m.results ≡ none
      → finish o now m ≡ record m { current = none }
  unfolding finish
  finish_missing o e l = ground arith

  pub finish_known :
      (o : Outcome) (x : ExportResult)
      → m.current ≡ some k
      → lookup k m.results ≡ some x
      → finish o now m ≡ record m { results = insert k (settled o now x) m.results; current = none }
  unfolding finish
  finish_known o x e l = ground arith
