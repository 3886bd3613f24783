-- ===== src/Postgres/Stats.antt =====
-- `AdminStats` of internal/adapters/postgres/batch_repo.go: the statements with their texts. What the
-- database answers to a text with its arguments is a parameter.
use Prim.Native.String.{◌++◌ as append_text}
use bulk.Base.{String, List, [], ◌∷◌, ◌++◌, Option, none, some}
use bulk.Base.Int.{ℤ}
use bulk.Domain.{Time, JobStatus}
use bulk.World.{Ratio, Result, ok, err}

pub data Arg : Type 0 where
  time : Time → Arg
  status : JobStatus → Arg

-- The one number that a statement selects, or an error.
pub record Database : Type 0 where
  pub count : String → List Arg → Result ℤ
  pub average : String → List Arg → Result Ratio

pub record AdminStats : Type 0 where
  pub batches_created : ℤ
  pub jobs_processed : ℤ
  pub jobs_failed : ℤ
  pub average_processing_time_ms : Ratio
  pub bulk_job_pending : ℤ
  pub bulk_result_pending : ℤ

abbrev from_clause : Option Time → String
from_clause none = ""
from_clause (some t) = " AND created_at >= $1"

abbrev to_clause : Option Time → Option Time → String
to_clause from none = ""
to_clause none (some t) = " AND created_at <= $1"
to_clause (some f) (some t) = " AND created_at <= $2"

abbrev pub period : Option Time → Option Time → String
period from to = append_text "1=1" (append_text (from_clause from) (to_clause from to))

abbrev times : Option Time → List Arg
times none = []
times (some t) = time t ∷ []

abbrev pub joined : String
joined = "SELECT COUNT(*) FROM batch_jobs j JOIN batches b ON j.batch_id=b.id"

-- `select` and the clause of the period
abbrev pub in_period : String → Option Time → Option Time → String
in_period select from to = append_text select (append_text " WHERE " (period from to))

infixl 5 ◌>>=◌
abbrev ◌>>=◌ : {A B : Type 0} → Result A → (A → Result B) → Result B
◌>>=◌ r f = elim r [ ok a ↦ f a | err e ↦ err e ]

-- `AdminStats`
unfoldable pub admin_stats : Database → Option Time → Option Time → Result AdminStats
admin_stats db from to = do
  let args = times from ++ times to
  created ← db.count (in_period "SELECT COUNT(*) FROM batches" from to) args
  processed ← db.count (in_period joined from to) args
  failed ←
      db.count (in_period (append_text joined " WHERE j.status=$1") from to)
        (status JobStatus.failed ∷ args)
  average ←
      db.average
        (in_period
          "SELECT AVG(EXTRACT(EPOCH FROM (completed_at - created_at)) * 1000) FROM batches WHERE completed_at IS NOT NULL"
          from to)
        args
  waiting ←
      db.count "SELECT COUNT(*) FROM batch_jobs WHERE status IN ($1,$2)"
        (status JobStatus.pending ∷ status JobStatus.queued ∷ [])
  running ←
      db.count "SELECT COUNT(*) FROM batch_jobs WHERE status=$1" (status JobStatus.processing ∷ [])
  ok (record {
    batches_created = created;
    jobs_processed = processed;
    jobs_failed = failed;
    average_processing_time_ms = average;
    bulk_job_pending = waiting;
    bulk_result_pending = running;
  })
