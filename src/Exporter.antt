-- ===== src/Exporter.antt =====
-- internal/exporter/manager.go: the queue of exports and its worker. The channel has a buffer of at
-- least one place. A step is a request that enqueues, the worker that takes an
-- export, or the worker that stores its outcome; what generates and saves the file (Exporter/Worker)
-- is an argument.
-- Logging is left out.
pub mod Life
pub mod Cases
pub mod Stuck
pub mod Listed
pub mod Drain
pub mod Worker
use bulk.Base.{
  ℕ, String, Bool, true, false, List, [], ◌∷◌, ◌++◌, length, Option, none, some, if◌then◌else◌, ltb,
  lookup, insert,
}
use bulk.Domain.{Time}

pub data ExportStatus : Type 0 where
  pending running done failed : ExportStatus

pub record ExportResult : Type 0 where
  pub id : String
  pub status : ExportStatus
  pub storage_id : String
  pub error : String
  pub created_at : Time
  pub updated_at : Time

-- What an export ends with: the id of the stored file, or the text of an error.
pub data Outcome : Type 0 where
  stored_as : String → Outcome
  failed_with : String → Outcome

-- What `Enqueue` answers.
pub data Answer : Type 0 where
  accepted already_exists queue_full : Answer

-- `Manager`; `current` is the export that the worker is at.
pub record Manager : Type 0 where
  pub queue : List String
  pub capacity : ℕ
  pub results : List (String × ExportResult)
  pub current : Option String

abbrev pub new_result : String → Time → ExportResult
new_result id now = record {
  id = id;
  status = ExportStatus.pending;
  storage_id = "";
  error = "";
  created_at = now;
  updated_at = now;
}

-- The `select` of `Enqueue`.
pub offer : String → Manager → Answer × Manager
offer id m =
    if ltb (length m.queue) m.capacity
    then (Answer.accepted, record m { queue = m.queue ++ id ∷ [] })
    else (Answer.queue_full, m)

-- `Enqueue`
unfoldable pub enqueue : String → Time → Manager → Answer × Manager
unfolding offer
enqueue id now m = elim (lookup id m.results) [
  | some r ↦ (Answer.already_exists, m)
  | none ↦ offer id (record m { results = insert id (new_result id now) m.results })
]

-- `Get`
unfoldable pub get : String → Manager → Option ExportResult
get id m = lookup id m.results

pub start_export : String → Time → Manager → Manager
start_export id now m = elim (lookup id m.results) [
  | none ↦ m
  | some r ↦ record m {
    results = insert id (record r { status = ExportStatus.running; updated_at = now }) m.results;
    current = some id;
  }
]

-- The worker takes an export, if it is free and there is one.
unfoldable pub take_next : Time → Manager → Manager
unfolding start_export
take_next now m = elim m.current [
  | some id ↦ m
  | none ↦ elim m.queue [ [] ↦ m | id ∷ ids ↦ start_export id now (record m { queue = ids }) ]
]

unfoldable pub settled : Outcome → Time → ExportResult → ExportResult
settled (Outcome.stored_as s) now r = record r {
  status = ExportStatus.done;
  storage_id = s;
  updated_at = now;
}
settled (Outcome.failed_with e) now r = record r {
  status = ExportStatus.failed;
  error = e;
  updated_at = now;
}

-- The worker stores the outcome of the export that it is at.
unfoldable pub finish : Outcome → Time → Manager → Manager
unfolding settled
finish o now m = elim m.current [
  | none ↦ m
  | some id ↦ elim (lookup id m.results) [
    | none ↦ record m { current = none }
    | some r ↦ record m { results = insert id (settled o now r) m.results; current = none }
  ]
]

-- One step of a request or of the worker, and any number of them.
pub data Step : Manager → Manager → Type 0 where
  enqueued : (id : String) (now : Time) (m : Manager) → Step m (enqueue id now m).1
  taken : (now : Time) (m : Manager) → Step m (take_next now m)
  finished : (o : Outcome) (now : Time) (m : Manager) → Step m (finish o now m)

pub data Steps : Manager → Manager → Type 0 where
  none_left : (m : Manager) → Steps m m
  then_step : (m n k : Manager) → Steps m n → Step n k → Steps m k
