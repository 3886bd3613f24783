-- ===== src/Upload/Stored.antt =====
-- What `CreateBatchFromFile` leaves in the table of jobs, and when it leaves everything as it was.
use bulk.Base.{
  ◌⊎◌, inl, inr, ℕ, suc, String, ◌≡◌, refl, Bool, true, false, List, [], ◌∷◌, ◌++◌, map, length,
  none, some, arith, eq_iff,
}
use bulk.Base.Int.{ltb_ℤ, pos}
use bulk.Domain.{Batch}
use bulk.World.{World, Env, Error, ok, err, file_too_large}
use bulk.World.Rows.{BatchRow}
use bulk.Parser.Columns.{TextOps}
use bulk.Parser.Sheet.{Row, parse}
use bulk.Postgres.Tables.{find_batch, find_job, jobs_of}
use bulk.Postgres.Convert.{insert_columns, to_postgres}
use bulk.Postgres.Repositories.{create_batch, save_batch}
use bulk.Upload.{
  Uploader, Checked, Settings, File, parser_of, check_rows, finish_upload, new_batch,
  create_from_rows, create_parsed, create_batch_from_file,
}
use bulk.Upload.Counts.{check_rows-counts}
use bulk.Upload.Jobs.{entry_for, entries, check_rows-entries}

find_batch-append :
    (k : String) (rows : List BatchRow) (r : BatchRow)
    → find_batch k rows ≡ none
    → r.id ≡ k
    → find_batch k (rows ++ r ∷ []) ≡ some r
unfolding find_batch
find_batch-append k [] r e same = ground (arith, eq_iff r.id k)
find_batch-append k (x ∷ rows) r e same = ground (arith, find_batch-append k rows r)

module _ (env : Env) (u : Uploader) (matches : String → String → Bool) (text : TextOps)
    (revision : String) where
  -- A file that cannot be read, that is too large, or that the parser refuses is an error, and changes
  -- nothing: no batch and no job is stored, and nothing outside is called.
  pub create_batch_from_file-refuses :
      (s : Settings) (file : File) (w : World) (e : Error)
      → ((file.read_fault ≡ some e)
          ⊎ ((file.read_fault ≡ none)
              × (ltb_ℤ s.max_file_size (pos file.size) ≡ true)
              × (e ≡ file_too_large))
          ⊎ ((file.read_fault ≡ none)
              × (ltb_ℤ s.max_file_size (pos file.size) ≡ false)
              × (parse text (parser_of s) revision file.size file.sheet ≡ err e)))
      → create_batch_from_file env u matches text revision s file w ≡ (err e, w)
  unfolding create_batch_from_file create_parsed
  create_batch_from_file-refuses s file w e (inl unread) = ground arith
  create_batch_from_file-refuses s file w e (inr (inl (readable, large, same))) =
      ground (arith, same)
  create_batch_from_file-refuses s file w e (inr (inr (readable, small, refused))) =
      ground (arith, refused)

  finish_upload-jobs :
      (k : String) (b : Batch) (c : Checked) (w : World)
      → (finish_upload env u matches text revision k b c w).1.jobs ≡ w.jobs
  unfolding finish_upload save_batch
  finish_upload-jobs k b c w = ground arith

  module _ (up : (n : ℕ) → env.store_fault n ≡ none)
      (distinct : (i j : ℕ) → env.uuid i ≡ env.uuid j → i ≡ j) (batches : u.batch_repo ≡ true)
      (jobs : u.job_repo ≡ true) (w : World)
      (unused : (n : ℕ) → find_job (env.uuid n) w.jobs ≡ none)
      (new : find_batch (env.uuid w.calls) w.batches ≡ none)
      (no_jobs : jobs_of (env.uuid w.calls) w.jobs ≡ []) where
    create_from_rows-entries :
        (rows : List Row)
        → entries (env.uuid w.calls) (create_from_rows env u matches text revision rows w).1
          ≡ map entry_for rows
    unfolding create_from_rows create_batch insert_columns to_postgres
    create_from_rows-entries rows =
        let k = env.uuid w.calls in
        let none_yet : Checked = record { valid = 0; invalid = 0; errors = [] } in
        let r =
          insert_columns (to_postgres (new_batch k revision (length rows)))
            (env.now (suc w.calls)) in
        let w2 : World = record w { calls = suc (suc w.calls); batches = w.batches ++ r ∷ [] } in
        let (c, checked, sum) =
          check_rows-counts env u matches text revision k 0 none_yet rows w2 in
        ground (
          arith,
          up (suc w.calls),
          checked,
          check_rows-entries env u matches text revision up distinct k 0 none_yet rows w2 r jobs
              (λ n h. unused n) (find_batch-append k w.batches r new refl),
          finish_upload-jobs k (new_batch k revision (length rows)) c
              (check_rows env u matches text revision k 0 none_yet rows w2).1,
        )

    -- With a store that answers and identifiers that are new, each row of an accepted file becomes a
    -- job of the new batch, in the order of the file: a pending job with the number and the fields of
    -- the row, also where the row is not valid.
    pub create_batch_from_file-entries :
        (s : Settings) (file : File) (rows : List Row)
        → file.read_fault ≡ none
        → ltb_ℤ s.max_file_size (pos file.size) ≡ false
        → parse text (parser_of s) revision file.size file.sheet ≡ ok rows
        → entries (env.uuid w.calls) (create_batch_from_file env u matches text revision s file w).1
          ≡ map entry_for rows
    unfolding create_batch_from_file create_parsed
    create_batch_from_file-entries s file rows readable small parsed =
        ground (arith, create_from_rows-entries rows)
