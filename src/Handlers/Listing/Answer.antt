-- ===== src/Handlers/Listing/Answer.antt =====
-- The pages that the listings answer with.
use bulk.Base.{ℕ, String, ◌≡◌, ◌≤◌, Bool, List, length, length-map, Option, arith, inl, inr}
use bulk.Base.Int.{ℤ, pos, ◌≤ℤ◌}
use bulk.Domain.{Time}
use bulk.World.{World, Env, Result-cases}
use bulk.World.Rows.{BatchRow}
use bulk.Postgres.Listing.{BatchFilter, OrderBy, list_batches, with_defaults}
use bulk.Postgres.Listing.Pages.{list_batches-bounded}
use bulk.Handlers.Reply.{reply, Deps, GoText}
use bulk.Handlers.Listing.{
  ListQuery, ListReply, positive_or, list_filter, batch_item, handle_list_batches,
}

positive_or-positive :
    (go : GoText) (fallback : ℤ) (s : String)
    → pos 1 ≤ℤ fallback
    → pos 1 ≤ℤ positive_or go fallback s
unfolding positive_or
positive_or-positive go fallback s h = ground arith

with_defaults-limit : (f : BatchFilter) → pos 1 ≤ℤ f.limit → (with_defaults f).limit ≡ f.limit
unfolding with_defaults
with_defaults-limit f h = ground arith

module _ (env : Env) (order_by : OrderBy) (go : GoText)
    (keeps : (n : ℕ) (column : BatchRow → Option Time) (desc : Bool) (rows : List BatchRow)
      → length (order_by n column desc rows) ≡ length rows) where
  -- If ORDER BY keeps the number of rows, then whatever the query is, a listing that is answered has
  -- a page and a limit above 0, and no more batches than its limit and its total.
  pub handle_list_batches-bounded :
      (d : Deps) (q : ListQuery) (w : World) (status : ℕ) (r : ListReply)
      → (handle_list_batches env order_by go d q w).0 ≡ reply status r
      → (pos 1 ≤ℤ r.page)
        × (pos 1 ≤ℤ r.limit)
        × (pos (length r.items) ≤ℤ r.limit)
        × (length r.items ≤ r.total)
  unfolding handle_list_batches list_filter
  handle_list_batches-bounded d q w status r h =
      let f = list_filter go q in
      let page = positive_or-positive go (pos 1) q.page (omega arith) in
      let limit = positive_or-positive go (pos 20) q.limit (omega arith) in
      elim (Result-cases (list_batches env order_by go.parse_time f w).0) [
        | inl ((bs, total), e) ↦ ground (
          arith,
          e,
          page,
          limit,
          with_defaults-limit f limit,
          length-map bs batch_item,
          list_batches-bounded env order_by keeps go.parse_time f w bs total e,
        )
        | inr (error, e) ↦ ground (arith, e)
      ]
