-- ===== src/Postgres/Listing.antt =====
-- `ListWithFilters` of the adapter and `List` of its wrapper: the batches that match a filter, in an
-- order, one page of them.
pub mod Order
pub mod Pages
use bulk.Base.{
  ℕ, suc, ◌-◌, ◌*◌, String, Bool, true, false, ◌&&◌, not, List, map, length, take, drop, select,
  Option, none, some, if◌then◌else◌, str_eq, ltb, leb,
}
use bulk.Base.Int.{ℤ, pos, pos_part, ltb_ℤ, ◌-ℤ◌, ◌*ℤ◌, wrap_64}
use bulk.Domain.{Batch, BatchStatus, Time}
use bulk.World.{World, Env, Action, pure, raise, outside, gets, faulty, ◌>>=◌, ◌>>◌}
use bulk.World.Rows.{BatchRow}
use bulk.Postgres.Convert.{to_domain, scan_batch}

-- `ports.BatchFilter`; an empty text and a missing time do not filter.
pub record BatchFilter : Type 0 where
  pub status : String
  pub from : Option Time
  pub to : Option Time
  pub page : ℤ
  pub limit : ℤ
  pub user_id : String
  pub revision : String
  pub sort_by : String
  pub sort_desc : Bool
  pub cursor : String

-- The text of a status in its column.
unfoldable pub status_text : BatchStatus → String
status_text BatchStatus.pending = "pending"
status_text BatchStatus.validation_errors = "validation_errors"
status_text BatchStatus.partial_available = "partial_available"
status_text BatchStatus.ready = "ready"
status_text BatchStatus.processing = "processing"
status_text BatchStatus.completed = "completed"
status_text BatchStatus.cancelled = "cancelled"
status_text (BatchStatus.other s) = s

-- A condition on a text that is left out where the text is empty; NULL is equal to nothing.
text_matches : String → Option String → Bool
text_matches wanted column =
    if str_eq wanted "" then true else elim column [ none ↦ false | some s ↦ str_eq s wanted ]

from_matches : Option Time → Time → Bool
from_matches none t = true
from_matches (some from) t = leb from t

to_matches : Option Time → Time → Bool
to_matches none t = true
to_matches (some to) t = leb t to

-- The condition of a cursor, on the column by which the rows are ordered.
past_cursor : Bool → Time → Option Time → Bool
past_cursor desc cursor none = false
past_cursor desc cursor (some t) = if desc then ltb t cursor else ltb cursor t

unfoldable pub sort_column : String → BatchRow → Option Time
sort_column sort_by r = if str_eq sort_by "completedAt" then r.completed_at else some r.created_at

cursor_matches : BatchFilter → Option Time → BatchRow → Bool
unfolding past_cursor sort_column
cursor_matches f none r = true
cursor_matches f (some cursor) r = past_cursor f.sort_desc cursor (sort_column f.sort_by r)

-- The WHERE clause.
unfoldable pub row_matches : BatchFilter → Option Time → BatchRow → Bool
unfolding text_matches from_matches to_matches cursor_matches status_text
row_matches f cursor r =
    text_matches f.status (some (status_text r.status))
    && text_matches f.user_id r.user_id
    && text_matches f.revision (some r.revision)
    && from_matches f.from r.created_at
    && to_matches f.to r.created_at
    && cursor_matches f cursor r

-- A page of 0 or less is the first one, and a limit of 0 or less is 20.
unfoldable pub with_defaults : BatchFilter → BatchFilter
with_defaults f = record f {
  page = if ltb_ℤ (pos 0) f.page then f.page else pos 1;
  limit = if ltb_ℤ (pos 0) f.limit then f.limit else pos 20;
}

-- The database's ORDER BY in call number n, on a column and descending or not: rows with one key may come
-- in another order in each call.
abbrev pub OrderBy : Type 0
OrderBy = ℕ → (BatchRow → Option Time) → Bool → List BatchRow → List BatchRow

module _ (env : Env) (order_by : OrderBy) where
  -- `ListWithFilters`: the count of the rows that match, and those of them that the page has. The
  -- database has an error for a negative offset.
  unfoldable pub list_with_filters : BatchFilter → Option Time → ℕ → ℤ → Action (List Batch × ℕ)
  list_with_filters f cursor limit offset = do
    faulty env.store_fault
    matching ← gets (λ w. select (row_matches f cursor) w.batches)
    n ← gets (λ w. w.calls)
    faulty env.store_fault
    rows ← gets (λ w. select (row_matches f cursor) w.batches)
    let ordered = order_by n (sort_column f.sort_by) f.sort_desc rows
    let page = take limit (drop (pos_part offset) ordered)
    (if ltb_ℤ offset (pos 0)
        then raise (outside "OFFSET must not be negative")
        else pure (map (λ r. to_domain (scan_batch r)) page, length matching))

  list_page : (String → Option Time) → BatchFilter → Action (List Batch × ℕ)
  unfolding list_with_filters
  list_page parse_time f =
      let offset = wrap_64 (wrap_64 (f.page -ℤ pos 1) *ℤ f.limit) in
      let cursor = if str_eq f.cursor "" then none else parse_time f.cursor in
      list_with_filters f cursor (pos_part f.limit) offset

  -- `List` of the wrapper; `parse_time` reads the cursor.
  unfoldable pub list_batches : (String → Option Time) → BatchFilter → Action (List Batch × ℕ)
  unfolding list_page with_defaults
  list_batches parse_time filter = list_page parse_time (with_defaults filter)
