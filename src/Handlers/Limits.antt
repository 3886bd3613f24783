-- ===== src/Handlers/Limits.antt =====
-- internal/limits and its handlers: the limits that an administrator can change while the service
-- runs. The store is one value, which each operation reads and writes under a lock.
pub mod Start
use bulk.Base.{
  List, [], ◌∷◌, Bool-cases, ◌≡◌, ◌⊎◌, Bool, ◌||◌, not, Option, none, some, arith, if◌then◌else◌,
  inl, inr,
}
use bulk.Base.Int.{ℤ, pos, ltb_ℤ, ◌≤ℤ◌, ◌*ℤ◌, wrap_64}
use bulk.Config.{Config, LimitsConfig}
use bulk.Handlers.Reply.{Reply, reply, failure}

-- `limits.Limits`, and `BulkLimits` with the same fields
pub record Limits : Type 0 where
  pub max_file_size : ℤ
  pub max_rows_per_batch : ℤ
  pub max_concurrent_batches : ℤ
  pub max_batches_per_hour : ℤ

-- The limits at the start.
abbrev pub initial_limits : Limits
initial_limits = record {
  max_file_size = pos 10485760;
  max_rows_per_batch = pos 1000;
  max_concurrent_batches = pos 5;
  max_batches_per_hour = pos 10;
}

abbrev if_positive : ℤ → ℤ → ℤ
if_positive new old = if ltb_ℤ (pos 0) new then new else old

-- `UpdateIfPositive`, on the store
unfoldable pub update_if_positive : Limits → Limits → Limits
update_if_positive l store = record {
  max_file_size = if_positive l.max_file_size store.max_file_size;
  max_rows_per_batch = if_positive l.max_rows_per_batch store.max_rows_per_batch;
  max_concurrent_batches = if_positive l.max_concurrent_batches store.max_concurrent_batches;
  max_batches_per_hour = if_positive l.max_batches_per_hour store.max_batches_per_hour;
}

-- `HandleGetBulkLimits`
unfoldable pub handle_get_bulk_limits : Limits → Reply Limits × Limits
handle_get_bulk_limits store = (reply 200 store, store)

all_positive : Limits → Bool
all_positive l = not (
    not (ltb_ℤ (pos 0) l.max_file_size)
    || not (ltb_ℤ (pos 0) l.max_rows_per_batch)
    || not (ltb_ℤ (pos 0) l.max_concurrent_batches)
    || not (ltb_ℤ (pos 0) l.max_batches_per_hour))

-- `HandlePutBulkLimits`, on a body that is decoded or not.
unfoldable pub handle_put_bulk_limits : Option Limits → Limits → Reply Limits × Limits
unfolding all_positive update_if_positive
handle_put_bulk_limits none store = (failure 400 "VALIDATION_ERROR" "invalid body", store)
handle_put_bulk_limits (some l) store =
    if all_positive l
    then (reply 200 (update_if_positive l store), update_if_positive l store)
    else (failure 400 "VALIDATION_ERROR" "limits must be positive", store)

-- The limits that the configuration gives; 0 for one that is not above 0. The product wraps around.
unfoldable pub config_limits : LimitsConfig → Limits
unfolding ◌*ℤ◌
config_limits c = record {
  max_file_size =
      if ltb_ℤ (pos 0) c.max_file_size_mb
      then wrap_64 (c.max_file_size_mb *ℤ pos 1048576)
      else pos 0;
  max_rows_per_batch = if_positive c.max_rows_per_batch (pos 0);
  max_concurrent_batches = if_positive c.max_concurrent_batches (pos 0);
  max_batches_per_hour = if_positive c.max_batches_per_hour (pos 0);
}

-- `SetDefaultLimitsFromConfig`
unfoldable pub set_default_limits_from_config : Option Config → Limits → Limits
unfolding update_if_positive config_limits
set_default_limits_from_config none store = store
set_default_limits_from_config (some c) store = update_if_positive (config_limits c.limits) store

-- Each of the limits is above 0.
pub record IsPositive (l : Limits) : Type 0 where
  pub file_size : pos 1 ≤ℤ l.max_file_size
  pub rows : pos 1 ≤ℤ l.max_rows_per_batch
  pub concurrent : pos 1 ≤ℤ l.max_concurrent_batches
  pub per_hour : pos 1 ≤ℤ l.max_batches_per_hour

-- What an administrator or the configuration does to the limits, one after another.
pub data Change : Type 0 where
  put : Option Limits → Change
  get : Change
  configure : Option Config → Change

pub change : Change → Limits → Limits
change (put body) store = (handle_put_bulk_limits body store).1
change get store = (handle_get_bulk_limits store).1
change (configure c) store = set_default_limits_from_config c store

abbrev pub changes : List Change → Limits → Limits
changes [] store = store
changes (c ∷ cs) store = changes cs (change c store)

update_if_positive-IsPositive :
    (l store : Limits) → IsPositive store → IsPositive (update_if_positive l store)
unfolding update_if_positive
update_if_positive-IsPositive l store h = ground arith

change-IsPositive : (c : Change) (store : Limits) → IsPositive store → IsPositive (change c store)
unfolding change handle_put_bulk_limits handle_get_bulk_limits set_default_limits_from_config
change-IsPositive (put none) store h = h
change-IsPositive (put (some l)) store h = ground (arith, update_if_positive-IsPositive l store)
change-IsPositive get store h = h
change-IsPositive (configure none) store h = h
change-IsPositive (configure (some c)) store h =
    update_if_positive-IsPositive (config_limits c.limits) store h

-- Whatever administrators and the configuration set, the limits stay above 0.
pub changes-IsPositive :
    (cs : List Change) (store : Limits) → IsPositive store → IsPositive (changes cs store)
changes-IsPositive [] store h = h
changes-IsPositive (c ∷ cs) store h =
    changes-IsPositive cs (change c store) (change-IsPositive c store h)

-- New limits are in force exactly if each of them is above 0, and then all of them as they were
-- given; the next reading shows what is in force.
pub handle_put_bulk_limits-get :
    (l store : Limits)
    → let r = handle_put_bulk_limits (some l) store in
      ((IsPositive l) × (r.0 ≡ reply 200 l) × ((handle_get_bulk_limits r.1).0 ≡ reply 200 l))
      ⊎ ((¬ IsPositive l)
          × (r.0 ≡ failure 400 "VALIDATION_ERROR" "limits must be positive")
          × ((handle_get_bulk_limits r.1).0 ≡ reply 200 store))
unfolding handle_put_bulk_limits handle_get_bulk_limits update_if_positive all_positive
handle_put_bulk_limits-get l store = elim (Bool-cases (all_positive l)) [
  | inl fine ↦ inl (ground (arith, fine))
  | inr refused ↦
      inr ((λ h. ground (arith, refused)), ground (arith, refused), ground (arith, refused))
]
