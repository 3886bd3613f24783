-- ===== src/Postgres/Sweep.antt =====
-- A loop that updates one row after another, by their keys: on rows with distinct keys it acts as a
-- map over them.
use bulk.Base.{
  ◌≤◌, ℕ, zero, suc, take, drop, ◌++◌, String, ◌≡◌, ◌≢◌, refl, List, [], ◌∷◌, map, arith, eq_iff,
  All, ap, ◌∙◌,
}
use mathlib.Core.Path.{fun_ext}
use bulk.World.Rows.{JobRow}
use bulk.Postgres.Convert.{job_to_domain}
use bulk.Postgres.Tables.{jobs_of, update_job, jobs_of-update_job}

-- No two rows have one key.
abbrev pub Distinct : List JobRow → Type 0
Distinct [] = Unit {0}
Distinct (r ∷ rs) = All (λ x. x.id ≢ r.id) rs × Distinct rs

abbrev pub ids : List JobRow → List String
ids = map λ r. r.id

-- The ids of the jobs that `GetByBatch` makes of rows.
pub listed_ids : (rows : List JobRow) → map (λ j. j.id) (map job_to_domain rows) ≡ ids rows
unfolding job_to_domain
listed_ids [] = refl
listed_ids (r ∷ rows) = ap (◌∷◌ r.id) (listed_ids rows)

pub update_job_other :
    (k : String) (f : JobRow → JobRow) (rows : List JobRow)
    → All (λ x. x.id ≢ k) rows
    → update_job k f rows ≡ rows
unfolding update_job
update_job_other k f [] h = refl
update_job_other k f (r ∷ rows) h = ground (arith, eq_iff r.id k, update_job_other k f rows h.1)

-- Two updates of one row are one.
pub update_job-update_job :
    (k : String) (f g : JobRow → JobRow) (rows : List JobRow)
    → ((r : JobRow) → (g r).id ≡ r.id)
    → update_job k f (update_job k g rows) ≡ update_job k (λ r. f (g r)) rows
unfolding update_job
update_job-update_job k f g [] h = refl
update_job-update_job k f g (r ∷ rows) h = ground (arith, h r, update_job-update_job k f g rows h)

-- An update that changes no row changes nothing.
pub update_job_same :
    (k : String) (f : JobRow → JobRow) (rows : List JobRow)
    → ((r : JobRow) → f r ≡ r)
    → update_job k f rows ≡ rows
unfolding update_job
update_job_same k f [] h = refl
update_job_same k f (r ∷ rows) h = ground (arith, h r, update_job_same k f rows h)

All-drop : (P : JobRow → Type 0) (n : ℕ) (rows : List JobRow) → All P rows → All P (drop n rows)
All-drop P zero rows h = h
All-drop P (suc n) [] h = h
All-drop P (suc n) (r ∷ rows) h = All-drop P n rows h.1

abbrev sweep_by : (ℕ → JobRow → JobRow) → ℕ → List String → List JobRow → List JobRow
sweep_by f i [] rows = rows
sweep_by f i (k ∷ ks) rows = sweep_by f (suc i) ks (update_job k (f i) rows)

module _ (f : ℕ → JobRow → JobRow) where
  -- Row number i, counted from the first argument on, by f i.
  abbrev pub map_from : ℕ → List JobRow → List JobRow
  map_from i [] = []
  map_from i (r ∷ rows) = f i r ∷ map_from (suc i) rows

  -- The loop over the keys.
  abbrev pub sweep : ℕ → List String → List JobRow → List JobRow
  sweep i [] rows = rows
  sweep i (k ∷ ks) rows = sweep (suc i) ks (update_job k (f i) rows)

  -- From an index on from which the steps change nothing, the loop changes nothing.
  pub sweep_idle :
      (i : ℕ) (ks : List String) (rows : List JobRow)
      → ((j : ℕ) → i ≤ j → (r : JobRow) → f j r ≡ r)
      → sweep i ks rows ≡ rows
  sweep_idle i [] rows h = refl
  sweep_idle i (k ∷ ks) rows h =
      ap (sweep (suc i) ks) (update_job_same k (f i) rows (h i (omega arith)))
      ∙ sweep_idle (suc i) ks rows (λ j le. h j (omega arith))

  -- The loop goes by the steps from its index on.
  pub sweep_same :
      (g : ℕ → JobRow → JobRow) (i : ℕ) (ks : List String) (rows : List JobRow)
      → ((j : ℕ) → i ≤ j → (r : JobRow) → f j r ≡ g j r)
      → sweep i ks rows ≡ sweep_by g i ks rows
  sweep_same g i [] rows h = refl
  sweep_same g i (k ∷ ks) rows h =
      sweep_same g (suc i) ks (update_job k (f i) rows) (λ j le. h j (omega arith))
      ∙ ap (λ s. sweep_by g (suc i) ks (update_job k s rows)) (fun_ext (h i (omega arith)))

  sweep_other :
      (i : ℕ) (rows : List JobRow) (r : JobRow) (rest : List JobRow)
      → All (λ x. x.id ≢ r.id) rows
      → sweep i (ids rows) (r ∷ rest) ≡ r ∷ sweep i (ids rows) rest
  unfolding update_job
  sweep_other i [] r rest h = refl
  sweep_other i (x ∷ rows) r rest h =
      ground (arith, eq_iff r.id x.id, sweep_other (suc i) rows r (update_job x.id (f i) rest) h.1)

  module _ (keeps : (i : ℕ) (r : JobRow) → (f i r).id ≡ r.id) where
    pub sweep-Distinct :
        (i : ℕ) (rows : List JobRow) → Distinct rows → sweep i (ids rows) rows ≡ map_from i rows
    unfolding update_job
    sweep-Distinct i [] d = refl
    sweep-Distinct i (r ∷ rows) d = ground (
      arith,
      eq_iff r.id r.id,
      update_job_other r.id (f i) rows d.0,
      sweep_other (suc i) rows (f i r) rows (rw (keeps i r) d.0),
      sweep-Distinct (suc i) rows d.1,
    )

    -- The same for a loop over the keys from position n on.
    pub sweep-drop :
        (n i : ℕ) (rows : List JobRow)
        → Distinct rows
        → sweep i (ids (drop n rows)) rows ≡ take n rows ++ map_from i (drop n rows)
    sweep-drop zero i rows d = sweep-Distinct i rows d
    sweep-drop (suc n) i [] d = refl
    sweep-drop (suc n) i (r ∷ rows) d =
        sweep_other i (drop n rows) r rows (All-drop (λ x. x.id ≢ r.id) n rows d.0)
        ∙ ap (◌∷◌ r) (sweep-drop n i rows d.1)

  pub jobs_of-sweep :
      (b : String) (i : ℕ) (ks : List String) (rows : List JobRow)
      → ((i : ℕ) (r : JobRow) → (f i r).batch_id ≡ r.batch_id)
      → jobs_of b (sweep i ks rows) ≡ sweep i ks (jobs_of b rows)
  jobs_of-sweep b i [] rows h = refl
  jobs_of-sweep b i (k ∷ ks) rows h =
      jobs_of-sweep b (suc i) ks (update_job k (f i) rows) h
      ∙ ap (sweep (suc i) ks) (jobs_of-update_job b k (f i) rows (h i))
