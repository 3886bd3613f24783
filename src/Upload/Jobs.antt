-- ===== src/Upload/Jobs.antt =====
-- The jobs that `CreateBatchFromFile` stores.
use bulk.Base.{
  ℕ, suc, ◌+◌, ◌≤◌, String, ◌≡◌, ◌≢◌, refl, Bool, true, List, [], ◌∷◌, ◌++◌, map, none, some, arith,
  eq_iff, sym, ◌∙◌,
}
use bulk.Base.Int.{ℤ, pos}
use bulk.Domain.{Fields, InputData, JobStatus}
use bulk.World.{World, Env}
use bulk.World.Rows.{JobRow, BatchRow}
use bulk.Parser.Columns.{TextOps}
use bulk.Parser.Sheet.{Row}
use bulk.Postgres.Tables.{find_batch, find_job, jobs_of}
use bulk.Postgres.Convert.{job_columns}
use bulk.Postgres.Repositories.{create_job}
use bulk.Upload.{Uploader, Checked, judge_row, store_job, check_rows, count_row, new_job}
use bulk.Upload.Counts.{judge_row-ok, store_job-ok}
use mathlib.Core.List.{append_assoc, append-nil}

-- What a row of a file and a row of the table of jobs have in common.
pub record Entry : Type 0 where
  pub row_number : ℤ
  pub status : JobStatus
  pub input_data : InputData

-- The entry of a job, and that of the job that a row of the file should get.
abbrev pub entry_of : JobRow → Entry
entry_of r = record { row_number = r.row_number; status = r.status; input_data = r.input_data }

abbrev pub entry_for : Row → Entry
entry_for row = record {
  row_number = pos row.row_number;
  status = JobStatus.pending;
  input_data = InputData.object row.fields;
}

-- The entries of the jobs of a batch.
abbrev pub entries : String → World → List Entry
entries k w = map entry_of (jobs_of k w.jobs)

jobs_of-append :
    (k : String) (xs : List JobRow) (r : JobRow)
    → r.batch_id ≡ k
    → jobs_of k (xs ++ r ∷ []) ≡ jobs_of k xs ++ r ∷ []
unfolding jobs_of
jobs_of-append k [] r e = ground (arith, eq_iff r.batch_id k)
jobs_of-append k (x ∷ xs) r e = ground (arith, jobs_of-append k xs r e)

find_job-append :
    (k : String) (xs : List JobRow) (r : JobRow)
    → find_job k xs ≡ none
    → r.id ≢ k
    → find_job k (xs ++ r ∷ []) ≡ none
unfolding find_job
find_job-append k [] r e d = ground (arith, eq_iff r.id k)
find_job-append k (x ∷ xs) r e d = ground (arith, find_job-append k xs r)

map-append :
    {A B : Type 0} (f : A → B) (xs : List A) (y : A) → map f (xs ++ y ∷ []) ≡ map f xs ++ f y ∷ []
map-append f [] y = refl
map-append f (x ∷ xs) y = ground (arith, map-append f xs y)

module _ (env : Env) (u : Uploader) (matches : String → String → Bool) (text : TextOps)
    (revision : String) (up : (n : ℕ) → env.store_fault n ≡ none)
    (distinct : (i j : ℕ) → env.uuid i ≡ env.uuid j → i ≡ j) where
  -- No identifier that is still to be drawn is that of a job.
  abbrev pub Fresh : World → Type 0
  Fresh w = (n : ℕ) → w.calls ≤ n → find_job (env.uuid n) w.jobs ≡ none

  judge_row-keeps :
      (i : ℕ) (fields : Fields) (w : World)
      → let w' = (judge_row env u matches text revision i fields w).1 in
        (w'.jobs ≡ w.jobs) × (w'.batches ≡ w.batches) × (w.calls ≤ w'.calls)
  unfolding judge_row
  judge_row-keeps i fields w = ground arith

  store_job-adds :
      (k : String) (row : Row) (w : World) (b : BatchRow)
      → u.job_repo ≡ true
      → Fresh w
      → find_batch k w.batches ≡ some b
      → (j : JobRow) × ((store_job env u matches text revision k row w).1.jobs ≡ w.jobs ++ j ∷ [])
        × (j.id ≡ env.uuid w.calls)
        × (j.batch_id ≡ k)
        × (entry_of j ≡ entry_for row)
        × ((store_job env u matches text revision k row w).1.batches ≡ w.batches)
        × ((store_job env u matches text revision k row w).1.calls ≡ w.calls + 2)
  unfolding store_job create_job job_columns
  store_job-adds k row w b hj fresh found = (
    job_columns (new_job (env.uuid w.calls) k row),
    ground (arith, fresh w.calls, up (suc w.calls)),
    refl,
    refl,
    refl,
    ground arith,
    ground arith,
  )

  find_job_later :
      (w w' : World) (j : JobRow)
      → Fresh w
      → w.calls ≤ w'.calls
      → (n : ℕ) → w'.calls + 2 ≤ n
      → j.id ≡ env.uuid w'.calls
      → find_job (env.uuid n) (w.jobs ++ j ∷ []) ≡ none
  find_job_later w w' j fresh h n below e =
      find_job-append (env.uuid n) w.jobs j (fresh n (omega arith))
        (λ same. ground (arith, distinct w'.calls n (sym e ∙ same)))

  pub check_rows-entries :
      (k : String) (i : ℕ) (c : Checked) (rows : List Row) (w : World) (b : BatchRow)
      → u.job_repo ≡ true
      → Fresh w
      → find_batch k w.batches ≡ some b
      → let w' = (check_rows env u matches text revision k i c rows w).1 in
        (entries k w' ≡ entries k w ++ map entry_for rows) × (w'.batches ≡ w.batches)
  unfolding check_rows
  check_rows-entries k i c [] w b hj fresh found = (sym (append-nil (entries k w)), refl)
  check_rows-entries k i c (row ∷ rows) w b hj fresh found =
      let (verdict, judged) = judge_row-ok env u matches text revision i row.fields w in
      let w1 = (judge_row env u matches text revision i row.fields w).1 in
      let w2 = (store_job env u matches text revision k row w1).1 in
      let (jobs1, batches1, later) = judge_row-keeps i row.fields w in
      let (j, jobs2, id, of, entry, batches2, calls2) =
        store_job-adds k row w1 b hj (λ n h. rw jobs1 (fresh n (omega arith)))
          (rw batches1 found) in
      let (entries3, batches3) =
        check_rows-entries k (suc i) (count_row verdict c) rows w2 b hj
          (λ n h. rw (jobs2, jobs1) (find_job_later w w1 j fresh later n (rw calls2 at h) id))
          (rw (batches2, batches1) found) in
      ground (
        arith,
        judged,
        store_job-ok env u matches text revision k row w1,
        entries3,
        jobs_of-append k w.jobs j of,
        map-append entry_of (jobs_of k w.jobs) j,
        append_assoc (entries k w) (entry_for row ∷ []) (map entry_for rows),
      )
