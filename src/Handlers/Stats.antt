-- ===== src/Handlers/Stats.antt =====
-- `HandleAdminStats`: GET /admin/stats. The start of the day of a time, and `math.Round`, are parameters.
use bulk.Base.{String, Option, none, some, if◌then◌else◌, str_eq}
use bulk.Base.Int.{ℤ, pos}
use bulk.Domain.{Time}
use bulk.World.{ok, err, Ratio}
use bulk.Postgres.Stats.{Database, admin_stats}
use bulk.Handlers.Reply.{Reply, reply, failure, GoText}

pub record Today : Type 0 where
  pub batches_created : ℤ
  pub jobs_processed : ℤ
  pub jobs_failed : ℤ
  pub average_processing_time_ms : ℤ

pub record StatsReply : Type 0 where
  pub total_batches : ℤ
  pub active_batches : ℤ
  pub completed_today : ℤ
  pub failed_today : ℤ
  pub avg_processing_time : ℤ
  pub today : Today
  pub bulk_job_pending : ℤ
  pub bulk_result_pending : ℤ

-- A parameter of the query, or the default where it is empty or no time.
time_param : GoText → String → Time → Time
time_param go s default =
    if str_eq s "" then default else elim (go.parse_time s) [ none ↦ default | some t ↦ t ]

stats_reply : ℤ → ℤ → ℤ → ℤ → ℤ → ℤ → StatsReply
stats_reply created processed failed average waiting running = record {
  total_batches = created;
  active_batches = pos 0;
  completed_today = created;
  failed_today = failed;
  avg_processing_time = average;
  today = record {
    batches_created = created;
    jobs_processed = processed;
    jobs_failed = failed;
    average_processing_time_ms = average;
  };
  bulk_job_pending = waiting;
  bulk_result_pending = running;
}

-- `HandleAdminStats`, at a time; without a repository, the database is none.
pub handle_admin_stats :
    GoText
    → (Time → Time)
    → (Ratio → ℤ)
    → Option Database
    → String
    → String
    → Time
    → Reply StatsReply
unfolding time_param stats_reply
handle_admin_stats go start_of_day round none from to now =
    reply 200 (stats_reply (pos 0) (pos 0) (pos 0) (pos 0) (pos 0) (pos 0))
handle_admin_stats go start_of_day round (some db) from to now =
    elim (admin_stats db (some (time_param go from (start_of_day now)))
      (some (time_param go to now))) [
        | err e ↦ failure 500 "SERVICE_ERROR" "failed to compute admin stats"
        | ok s ↦ reply 200 (
            stats_reply s.batches_created s.jobs_processed s.jobs_failed
              (round s.average_processing_time_ms) s.bulk_job_pending s.bulk_result_pending)
      ]
