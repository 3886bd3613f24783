-- ===== src/Handlers/Reply.antt =====
-- The answers of the handlers, what the handlers share, and the functions of Go's library that they
-- call.
use bulk.Base.{ℕ, String, Bool, not, Option, none, some, if◌then◌else◌, str_eq, ◌==◌}
use bulk.Base.Int.{ℤ}
use bulk.Domain.{Batch, Time}
use bulk.World.{World, Env, ok, err}
use bulk.Manager.{BatchManager}
use bulk.Confirm.{Service}
use bulk.Postgres.Repositories.{get_batch}

-- An answer by `c.JSON`, with the HTTP status, or one by `apperror.WriteError`, with the status, the
-- code and the message.
pub data Reply {ℓ} (A : Type ℓ) : Type ℓ where
  reply : ℕ → A → Reply A
  failure : ℕ → String → String → Reply A

-- `x, err := …` of an `Action` is a `Run` of a result: an error is a value here.
abbrev pub Run : Type 0 → Type 0
Run A = World → A × World

abbrev pub Handler : Type 0 → Type 0
Handler A = Run (Reply A)

infixl 5 ◌>>=◌ ◌>>◌
abbrev pub ◌>>=◌ : {A B : Type 0} → Run A → (A → Run B) → Run B
◌>>=◌ m f w = let (a, w') = m w in f a w'

abbrev pub ◌>>◌ : {A B : Type 0} → Run A → Run B → Run B
m >> k = m >>= λ _. k

abbrev pub answer : {A : Type 0} → A → Run A
answer a w = (a, w)

abbrev pub fail : {A : Type 0} → ℕ → String → String → Handler A
fail status code message = answer (failure status code message)

-- `di.Deps`: which of the parts are set; `job_topic` is the variable KAFKA_TOPIC_BULK_JOB, or empty.
pub record Deps : Type 0 where
  pub batch_repo : Bool
  pub job_repo : Bool
  pub batch_manager : Option BatchManager
  pub service : Option Service
  pub billing : Bool
  pub producer : Bool
  pub job_topic : String

-- `getBulkJobTopic`
unfoldable pub bulk_job_topic : Deps → String
bulk_job_topic d = if str_eq d.job_topic "" then "bulk.job" else d.job_topic

-- What the handlers use of Go's library: RFC 3339 in both directions, `none` for a text that does
-- not parse, and `strconv.Atoi`.
pub record GoText : Type 0 where
  pub format_time : Time → String
  pub parse_time : String → Option Time
  pub atoi : String → Option ℤ

-- `parseOptionalTime`
unfoldable pub parse_optional_time : GoText → String → Option Time
parse_optional_time go s = if str_eq s "" then none else go.parse_time s

-- A time as it is shown; the zero time is shown as the empty text.
unfoldable pub shown_time : GoText → Time → String
shown_time go t = if t == 0 then "" else go.format_time t

-- `requireBatch`, with the rest of the handler as its last argument. `GetByID` has an error where
-- there is no row, so the code's branch for a nil batch is never taken.
unfoldable pub require_batch :
    {A : Type 0} → Env → Option Deps → String → (Batch → Handler A) → Handler A
require_batch env none k next = fail 404 "MISSING_DEPENDENCY" "batch repo not configured"
require_batch env (some d) k next =
    if not d.batch_repo then fail 404 "MISSING_DEPENDENCY" "batch repo not configured" else (do
      found ← get_batch env k
      elim found [ err e ↦ fail 500 "SERVICE_ERROR" "failed to fetch batch" | ok b ↦ next b ])
