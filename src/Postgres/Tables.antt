-- ===== src/Postgres/Tables.antt =====
-- Lookup and update of table rows by their keys.
use bulk.Base.{
  String, ◌≡◌, refl, List, [], ◌∷◌, Option, none, some, arith, if◌then◌else◌, str_eq, eq_iff,
}
use bulk.World.Rows.{BatchRow, JobRow}

-- SELECT … FROM batches WHERE id = …
unfoldable pub find_batch : String → List BatchRow → Option BatchRow
find_batch k [] = none
find_batch k (r ∷ rs) = if str_eq r.id k then some r else find_batch k rs

-- UPDATE batches SET … WHERE id = …
unfoldable pub update_batch : String → (BatchRow → BatchRow) → List BatchRow → List BatchRow
update_batch k f [] = []
update_batch k f (r ∷ rs) = (if str_eq r.id k then f r else r) ∷ update_batch k f rs

-- SELECT … FROM batch_jobs WHERE batch_id = …
unfoldable pub jobs_of : String → List JobRow → List JobRow
jobs_of b [] = []
jobs_of b (r ∷ rs) = if str_eq r.batch_id b then r ∷ jobs_of b rs else jobs_of b rs

unfoldable pub find_job : String → List JobRow → Option JobRow
find_job k [] = none
find_job k (r ∷ rs) = if str_eq r.id k then some r else find_job k rs

-- UPDATE batch_jobs SET … WHERE id = …
unfoldable pub update_job : String → (JobRow → JobRow) → List JobRow → List JobRow
update_job k f [] = []
update_job k f (r ∷ rs) = (if str_eq r.id k then f r else r) ∷ update_job k f rs

pub find_batch-update_batch :
    (k j : String) (f : BatchRow → BatchRow) (rs : List BatchRow)
    → ((r : BatchRow) → (f r).id ≡ r.id)
    → find_batch j (update_batch k f rs) ≡ (
        if str_eq k j
        then elim (find_batch j rs) [ none ↦ none | some r ↦ some (f r) ]
        else find_batch j rs)
unfolding find_batch update_batch
find_batch-update_batch k j f [] h = ground arith
find_batch-update_batch k j f (r ∷ rs) h = ground (
  arith,
  h r,
  eq_iff r.id k,
  eq_iff r.id j,
  eq_iff (f r).id j,
  eq_iff k j,
  find_batch-update_batch k j f rs h,
)

-- An update that keeps the keys keeps the jobs of a batch in their order.
pub jobs_of-update_job :
    (b k : String) (f : JobRow → JobRow) (rs : List JobRow)
    → ((r : JobRow) → (f r).batch_id ≡ r.batch_id)
    → jobs_of b (update_job k f rs) ≡ update_job k f (jobs_of b rs)
unfolding jobs_of update_job
jobs_of-update_job b k f [] h = refl
jobs_of-update_job b k f (r ∷ rs) h = ground (arith, h r, jobs_of-update_job b k f rs h)

pub find_batch-id :
    (k : String) (rs : List BatchRow) (r : BatchRow) → find_batch k rs ≡ some r → r.id ≡ k
unfolding find_batch
find_batch-id k [] r e = cc
find_batch-id k (x ∷ rs) r e = ground (arith, eq_iff x.id k, find_batch-id k rs r)
