-- ===== src/Handlers/Admin.antt =====
-- `HandleAdminGetBatch`: GET /admin/batches/{batchId}.
pub mod Answer
use bulk.Base.{
  ℕ, String, Bool, true, false, not, ◌&&◌, List, [], ◌∷◌, map, Option, none, some, if◌then◌else◌,
  str_eq, ◌==◌, lookup, insert,
}
use bulk.Base.Int.{ℤ}
use bulk.Domain.{Batch, Job, JobResult, BatchStatus, JobStatus, Time}
use bulk.World.{Env, ok, err}
use bulk.Postgres.Repositories.{get_jobs, get_results}
use bulk.Handlers.Reply.{
  Reply, reply, Run, Handler, ◌>>=◌, answer, fail, Deps, GoText, shown_time, require_batch,
}

pub record JobItem : Type 0 where
  pub id : String
  pub status : JobStatus
  pub build_id : String
  pub row_number : ℤ

-- The answer; its config part repeats the revision.
pub record BatchDetails : Type 0 where
  pub id : String
  pub user_id : String
  pub status : BatchStatus
  pub revision : String
  pub jobs : List JobItem
  pub created_at : String
  pub updated_at : String

-- The map from job ids to build ids.
unfoldable pub builds : List (String × String) → List JobResult → List (String × String)
builds m [] = m
builds m (r ∷ rs) = builds (if str_eq r.job_id "" then m else insert r.job_id r.build_id m) rs

unfoldable pub job_item : List (String × String) → Job → JobItem
job_item m j = record {
  id = j.id;
  status = j.status;
  build_id = elim (lookup j.id m) [ none ↦ "" | some b ↦ b ];
  row_number = j.row_number;
}

unfoldable pub updated_text : GoText → Batch → String
unfolding shown_time
updated_text go b = elim b.completed_at [
  | none ↦ shown_time go b.created_at
  | some t ↦ if t == 0 then shown_time go b.created_at else shown_time go t
]

unfoldable pub details_of : GoText → Batch → List JobItem → BatchDetails
unfolding shown_time updated_text
details_of go b jobs = record {
  id = b.id;
  user_id = b.user_id;
  status = b.status;
  revision = b.revision;
  jobs = jobs;
  created_at = shown_time go b.created_at;
  updated_at = updated_text go b;
}

module _ (env : Env) where
  unfoldable pub job_items : Option Deps → String → Run (List JobItem)
  unfolding builds job_item
  job_items none k = answer []
  job_items (some d) k =
      if d.job_repo
      then (do
        listed ← get_jobs env k
        found ← get_results env k
        let jobs : List Job = elim listed [ ok js ↦ js | err e ↦ [] ]
        let built : List (String × String) = elim found [ ok rs ↦ builds [] rs | err e ↦ [] ]
        answer (map (job_item built) jobs))
      else answer []

  -- `HandleAdminGetBatch`
  unfoldable pub handle_admin_get_batch : GoText → Option Deps → String → Handler BatchDetails
  unfolding require_batch job_items details_of
  handle_admin_get_batch go deps k =
      require_batch env deps k
        (λ b. do jobs ← job_items deps k; answer (reply 200 (details_of go b jobs)))
