-- ===== src/Postgres/TxColumn.antt =====
-- The JSONB column `transaction_ids`: `txArgFromBatch` and `parseTransactionIDs`. The text between
-- the two is left out: a value is written and read as the JSON that it stands for, numbers as
-- integers.
use bulk.Base.{
  String, ◌≡◌, refl, ◌||◌, not, List, [], ◌∷◌, Option, none, some, if◌then◌else◌, str_eq, ap,
}
use bulk.Base.Int.{ℤ, pos, ltb_ℤ}
use bulk.Domain.{BatchStatus, Time}
use bulk.World.Rows.{Json, null, num, str, arr, obj, Items, nil, cons, Members, end, member}

-- `postgres.Batch`; a zero time stands for no time.
pub record PgBatch : Type 0 where
  pub id : String
  pub user_id : String
  pub status : BatchStatus
  pub revision : String
  pub file_storage_id : String
  pub total_rows : ℤ
  pub valid_rows : ℤ
  pub approved_count : ℤ
  pub completed_count : ℤ
  pub failed_count : ℤ
  pub created_at : Time
  pub completed_at : Time
  pub transaction_ids : List String
  pub priority : String
  pub timeout_ms : ℤ

pub items : List String → Items
items [] = nil
items (t ∷ ts) = cons (str t) (items ts)

-- A nil slice is written as `null`.
pub transactions_json : List String → Json
unfolding items
transactions_json [] = null
transactions_json (t ∷ ts) = arr (items (t ∷ ts))

config_json : String → ℤ → Json
config_json priority timeout =
    obj (member "priority" (str priority) (member "timeout" (num timeout) end))

-- `txArgFromBatch`
unfoldable pub tx_arg : PgBatch → Json
unfolding transactions_json config_json
tx_arg b =
    if not (str_eq b.priority "") || ltb_ℤ (pos 0) b.timeout_ms
    then obj (
        member "config" (config_json b.priority b.timeout_ms)
          (member "transactions" (transactions_json b.transaction_ids) end))
    else obj (member "transactions" (transactions_json b.transaction_ids) end)

pub get_member : String → Members → Option Json
get_member k end = none
get_member k (member j v m) = if str_eq j k then some v else get_member k m

-- The texts of a JSON array; other elements are passed over.
pub texts : Items → List String
texts nil = []
texts (cons (str s) r) = s ∷ texts r
texts (cons _ r) = texts r

pub texts_of : Option Json → List String
unfolding texts
texts_of (some (arr r)) = texts r
texts_of _ = []

text_of : Option Json → String
text_of (some (str s)) = s
text_of _ = ""

number_of : Option Json → ℤ
number_of (some (num n)) = n
number_of _ = pos 0

config_of : Option Json → String × ℤ
unfolding text_of number_of get_member
config_of (some (obj m)) = (text_of (get_member "priority" m), number_of (get_member "timeout" m))
config_of _ = ("", pos 0)

-- `parseTransactionIDs`
unfoldable pub parse_transaction_ids : Json → List String × String × ℤ
unfolding texts_of config_of get_member
parse_transaction_ids (arr r) = (texts r, "", pos 0)
parse_transaction_ids (obj m) =
    let (priority, timeout) = config_of (get_member "config" m) in
    (texts_of (get_member "transactions" m), priority, timeout)
parse_transaction_ids _ = ([], "", pos 0)

pub texts-items : (ts : List String) → texts (items ts) ≡ ts
unfolding texts items
texts-items [] = refl
texts-items (t ∷ ts) = ap (◌∷◌ t) (texts-items ts)

pub texts_of-transactions_json : (ts : List String) → texts_of (some (transactions_json ts)) ≡ ts
unfolding texts_of transactions_json
texts_of-transactions_json [] = refl
texts_of-transactions_json (t ∷ ts) = texts-items (t ∷ ts)
