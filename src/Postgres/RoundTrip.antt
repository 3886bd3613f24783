-- ===== src/Postgres/RoundTrip.antt =====
-- What is read back after a write: the transaction column, and a batch through the repository.
use bulk.Base.{
  String, ◌≡◌, ◌≢◌, refl, ◌⊎◌, Option, none, some, arith, if◌then◌else◌, str_eq, eq_iff,
  Option-cases, inl, inr,
}
use bulk.Base.Int.{pos, ◌≤ℤ◌}
use bulk.Domain.{Batch, Time}
use mathlib.Core.Option
use bulk.World.{World, Env, ok}
use bulk.World.Rows.{BatchRow}
use bulk.Postgres.Tables.{find_batch, update_batch, find_batch-id, find_batch-update_batch}
use bulk.Postgres.TxColumn.{PgBatch, tx_arg, parse_transaction_ids, texts_of-transactions_json}
use bulk.Postgres.Convert.{
  to_postgres, to_domain, scan_batch, update_columns, nullable, text_or_empty, time_or_zero,
  non_zero,
}
use bulk.Postgres.Calls.{ticked, save_batch_up, get_batch_found}
use bulk.Postgres.Repositories.{get_batch, save_batch}

-- A batch whose timeout is not negative is read back from its transaction column as it was: the
-- transaction ids in their order, the priority and the timeout, with and without a config member.
pub parse_transaction_ids-tx_arg :
    (b : PgBatch)
    → pos 0 ≤ℤ b.timeout_ms
    → parse_transaction_ids (tx_arg b) ≡ (b.transaction_ids, b.priority, b.timeout_ms)
unfolding parse_transaction_ids tx_arg
parse_transaction_ids-tx_arg b h =
    ground (arith, eq_iff b.priority "", texts_of-transactions_json b.transaction_ids)

-- What a save leaves of a batch `old` for the next read: the fields of `b`, but the user, the
-- revision and the creation time of `old`, and neither a priority nor a timeout.
abbrev pub saved_over : Batch → Batch → Batch
saved_over old b = record b {
  user_id = old.user_id;
  revision = old.revision;
  created_at = old.created_at;
  priority = "";
  timeout_ms = pos 0;
}

pub text_or_empty-nullable : (s : String) → text_or_empty (nullable s) ≡ s
unfolding text_or_empty nullable
text_or_empty-nullable s = ground (arith, eq_iff s "")

non_zero-time_or_zero : (t : Option Time) → t ≢ some 0 → non_zero (time_or_zero t) ≡ t
unfolding non_zero time_or_zero
non_zero-time_or_zero none h = refl
non_zero-time_or_zero (some t) h = ground arith

pub to_domain-update_columns :
    (r : BatchRow) (b : Batch)
    → b.id ≡ r.id
    → b.completed_at ≢ some 0
    → to_domain (scan_batch (update_columns (to_postgres b) r))
      ≡ saved_over (to_domain (scan_batch r)) b
unfolding to_domain scan_batch update_columns to_postgres
to_domain-update_columns r b e h = ground (
  arith,
  text_or_empty-nullable b.file_storage_id,
  non_zero-time_or_zero b.completed_at h,
  texts_of-transactions_json b.billing_transaction_ids,
)

-- The batch that a read of `k` would find.
abbrev pub stored : String → World → Option Batch
stored k w = Option.map (λ r. to_domain (scan_batch r)) (find_batch k w.batches)

update_columns-id : (p : PgBatch) (r : BatchRow) → (update_columns p r).id ≡ r.id
unfolding update_columns
update_columns-id p r = refl

-- A save changes what is stored under the batch's own key, and nothing else.
pub stored-save_batch :
    (env : Env) (w : World) (b : Batch) (k : String)
    → env.store_fault w.calls ≡ none
    → b.completed_at ≢ some 0
    → stored k (save_batch env b w).1
      ≡ (if str_eq b.id k then Option.map (λ old. saved_over old b) (stored k w) else stored k w)
stored-save_batch env w b k up h =
    rw (save_batch_up env w up b) (go (Option-cases (find_batch k w.batches)))
  where
    found : find_batch k (update_batch b.id (update_columns (to_postgres b)) w.batches) ≡ (
        if str_eq b.id k
        then elim (find_batch k w.batches) [
          | none ↦ none
          | some r ↦ some (update_columns (to_postgres b) r)
        ]
        else find_batch k w.batches)
    found = find_batch-update_batch b.id k _ w.batches (update_columns-id (to_postgres b))

    go :
        (find_batch k w.batches ≡ none) ⊎ ((r : BatchRow) × (find_batch k w.batches ≡ some r))
        → Option.map
            (λ r. to_domain (scan_batch r))
            (find_batch k (update_batch b.id (update_columns (to_postgres b)) w.batches))
          ≡ (if str_eq b.id k
              then Option.map (λ old. saved_over old b) (stored k w)
              else stored k w)
    go (inl e) = ground (arith, found)
    go (inr (r, e)) =
        ground
          (arith, found, eq_iff b.id k, find_batch-id k w.batches r e, to_domain-update_columns r b)

stored-row :
    (k : String) (w : World) (b : Batch)
    → stored k w ≡ some b
    → (r : BatchRow) × (find_batch k w.batches ≡ some r) × (b ≡ to_domain (scan_batch r))
stored-row k w b e = elim (Option-cases (find_batch k w.batches)) [
  | inl missing ↦ ground (arith, missing)
  | inr (r, found) ↦ (r, found, ground arith)
]

-- A read finds what is stored.
pub get_batch-stored :
    (env : Env) (w : World) (k : String) (b : Batch)
    → env.store_fault w.calls ≡ none
    → stored k w ≡ some b
    → get_batch env k w ≡ (ok b, ticked w)
get_batch-stored env w k b up e =
    let (r, found, same) = stored-row k w b e in rw same (get_batch_found env w up k r found)

pub stored-id : (k : String) (w : World) (b : Batch) → stored k w ≡ some b → b.id ≡ k
unfolding to_domain scan_batch
stored-id k w b e =
    let (r, found, same) = stored-row k w b e in ground (arith, find_batch-id k w.batches r found)

-- What is read from a row never has the zero time for its completion.
pub stored-completed_at :
    (k : String) (w : World) (b : Batch) → stored k w ≡ some b → b.completed_at ≢ some 0
unfolding to_domain non_zero
stored-completed_at k w b e = let (r, found, same) = stored-row k w b e in ground arith
