-- ===== src/Handlers/Listing.antt =====
-- `HandleListBatches`, GET /batches, and `HandleAdminListBatches`, GET /admin/batches.
pub mod Answer
use bulk.Base.{
  ℕ, String, Bool, true, false, not, List, [], ◌∷◌, map, Option, none, some, if◌then◌else◌, str_eq,
}
use bulk.Base.Int.{ℤ, pos, ltb_ℤ}
use bulk.Domain.{Batch, BatchStatus, Time}
use bulk.World.{Env, ok, err}
use bulk.Postgres.Listing.{BatchFilter, OrderBy, list_batches}
use bulk.Handlers.Reply.{
  Reply, reply, Handler, ◌>>=◌, answer, fail, Deps, GoText, parse_optional_time, shown_time,
}

-- The query parameters, each empty where it is not given; `path_user_id` is the one of the admin route.
pub record ListQuery : Type 0 where
  pub status : String
  pub page : String
  pub limit : String
  pub from : String
  pub to : String
  pub user_id : String
  pub path_user_id : String
  pub revision : String
  pub sort_by : String
  pub order : String
  pub cursor : String

pub record BatchItem : Type 0 where
  pub batch_id : String
  pub status : BatchStatus
  pub total_jobs : ℤ
  pub completed_jobs : ℤ
  pub failed_jobs : ℤ
  pub created_at : Time
  pub completed_at : Option Time

pub record ListReply : Type 0 where
  pub items : List BatchItem
  pub page : ℤ
  pub limit : ℤ
  pub total : ℕ

pub record AdminItem : Type 0 where
  pub id : String
  pub user_id : String
  pub status : BatchStatus
  pub total_jobs : ℤ
  pub completed_jobs : ℤ
  pub failed_jobs : ℤ
  pub created_at : String

pub record AdminListReply : Type 0 where
  pub batches : List AdminItem
  pub page : ℤ
  pub per_page : ℤ
  pub total : ℕ

-- A number of the query that is above 0, and `fallback` for any other text.
unfoldable pub positive_or : GoText → ℤ → String → ℤ
positive_or go fallback s =
    if str_eq s ""
    then fallback
    else elim (go.atoi s) [ none ↦ fallback | some v ↦ if ltb_ℤ (pos 0) v then v else fallback ]

unfoldable pub list_filter : GoText → ListQuery → BatchFilter
unfolding positive_or parse_optional_time
list_filter go q = record {
  status = q.status;
  from = parse_optional_time go q.from;
  to = parse_optional_time go q.to;
  page = positive_or go (pos 1) q.page;
  limit = positive_or go (pos 20) q.limit;
  user_id = if str_eq q.path_user_id "" then q.user_id else q.path_user_id;
  revision = q.revision;
  sort_by = q.sort_by;
  sort_desc = str_eq q.order "desc";
  cursor = q.cursor;
}

-- The filter of the admin listing; its query names the limit `perPage`.
unfoldable pub admin_filter : GoText → ListQuery → BatchFilter
unfolding positive_or parse_optional_time
admin_filter go q = record {
  status = q.status;
  from = parse_optional_time go q.from;
  to = parse_optional_time go q.to;
  page = positive_or go (pos 1) q.page;
  limit = positive_or go (pos 20) q.limit;
  user_id = q.user_id;
  revision = q.revision;
  sort_by = "";
  sort_desc = false;
  cursor = "";
}

unfoldable pub batch_item : Batch → BatchItem
batch_item b = record {
  batch_id = b.id;
  status = b.status;
  total_jobs = b.total_rows;
  completed_jobs = b.completed_count;
  failed_jobs = b.failed_count;
  created_at = b.created_at;
  completed_at = b.completed_at;
}

unfoldable pub admin_item : GoText → Batch → AdminItem
unfolding shown_time
admin_item go b = record {
  id = b.id;
  user_id = b.user_id;
  status = b.status;
  total_jobs = b.total_rows;
  completed_jobs = b.completed_count;
  failed_jobs = b.failed_count;
  created_at = shown_time go b.created_at;
}

module _ (env : Env) (order_by : OrderBy) (go : GoText) where
  -- `HandleListBatches`
  unfoldable pub handle_list_batches : Deps → ListQuery → Handler ListReply
  unfolding list_filter batch_item
  handle_list_batches d q =
      if not d.batch_repo then fail 404 "MISSING_DEPENDENCY" "batch repo not configured" else (do
        let filter = list_filter go q
        found ← list_batches env order_by go.parse_time filter
        elim found [
          | err e ↦ fail 500 "SERVICE_ERROR" "failed to list batches"
          | ok (batches, total) ↦ answer (
              reply 200 (record {
                items = map batch_item batches;
                page = filter.page;
                limit = filter.limit;
                total = total;
              }))
        ])

  list_for_admin : ListQuery → Handler AdminListReply
  unfolding admin_filter admin_item
  list_for_admin q = do
    let filter = admin_filter go q
    found ← list_batches env order_by go.parse_time filter
    elim found [
      | err e ↦ fail 500 "SERVICE_ERROR" "failed to list batches"
      | ok (batches, total) ↦ answer (
          reply 200 (record {
            batches = map (admin_item go) batches;
            page = filter.page;
            per_page = filter.limit;
            total = total;
          }))
    ]

  -- `HandleAdminListBatches`
  unfoldable pub handle_admin_list_batches : Option Deps → ListQuery → Handler AdminListReply
  unfolding list_for_admin
  handle_admin_list_batches none q = fail 404 "MISSING_DEPENDENCY" "batch repo not configured"
  handle_admin_list_batches (some d) q =
      if not d.batch_repo
      then fail 404 "MISSING_DEPENDENCY" "batch repo not configured"
      else list_for_admin q
