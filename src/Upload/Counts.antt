-- ===== src/Upload/Counts.antt =====
-- The counts of `CreateBatchFromFile`.
use bulk.Base.{
  ℕ, suc, ◌+◌, String, ◌≡◌, refl, Bool, List, [], ◌∷◌, length, arith, if◌then◌else◌, inl, inr,
}
use bulk.Domain.{Fields, RowError}
use bulk.World.{World, Env, ok, pure, Result-cases}
use bulk.Parser.Columns.{TextOps}
use bulk.Parser.Sheet.{Row, parse}
use bulk.Postgres.Repositories.{create_batch}
use bulk.Upload.{
  Uploader, Checked, CreateBatchResult, Settings, File, parser_of, judge_row, store_job, check_rows,
  count_row, new_batch, create_from_rows, create_parsed, create_batch_from_file,
}

count_row-sum :
    (found : Bool × List RowError) (c : Checked)
    → (count_row found c).valid + (count_row found c).invalid ≡ suc (c.valid + c.invalid)
count_row-sum found c = ground arith

module _ (env : Env) (u : Uploader) (matches : String → String → Bool) (text : TextOps)
    (revision : String) where
  pub judge_row-ok :
      (i : ℕ) (fields : Fields) (w : World)
      → (found : Bool × List RowError) × ((judge_row env u matches text revision i fields w).0
          ≡ ok found)
  unfolding judge_row
  judge_row-ok i fields w =
      elim (Result-cases (judge_row env u matches text revision i fields w).0) [
        | inl found ↦ found
        | inr (e, fails) ↦ ground (arith, fails)
      ]

  pub store_job-ok :
      (k : String) (row : Row) (w : World)
      → (store_job env u matches text revision k row w).0 ≡ ok tt
  unfolding store_job
  store_job-ok k row w = ground arith

  pub check_rows-counts :
      (k : String) (i : ℕ) (c : Checked) (rows : List Row) (w : World)
      → (c' : Checked) × ((check_rows env u matches text revision k i c rows w).0 ≡ ok c')
        × (c'.valid + c'.invalid ≡ c.valid + c.invalid + length rows)
  unfolding check_rows
  check_rows-counts k i c [] w = (c, refl, omega arith)
  check_rows-counts k i c (row ∷ rows) w =
      let (found, judged) = judge_row-ok i row.fields w in
      let w1 = (judge_row env u matches text revision i row.fields w).1 in
      let w2 = (store_job env u matches text revision k row w1).1 in
      let (c', checked, sum) = check_rows-counts k (suc i) (count_row found c) rows w2 in
      (
        c',
        ground (arith, judged, store_job-ok k row w1, checked),
        omega (arith, sum, count_row-sum found c),
      )

  create_from_rows-counts :
      (rows : List Row) (w : World) (r : CreateBatchResult)
      → (create_from_rows env u matches text revision rows w).0 ≡ ok r
      → (r.total_rows ≡ length rows) × (r.valid_rows + r.invalid_rows ≡ length rows)
  unfolding create_from_rows
  create_from_rows-counts rows w r h =
      let k = env.uuid w.calls in
      let none_yet : Checked = record { valid = 0; invalid = 0; errors = [] } in
      let w1 : World = record w { calls = suc w.calls } in
      let w2 =
        (if u.batch_repo then create_batch env (new_batch k revision (length rows)) else pure tt)
          w1 in
      let (c, checked, sum) = check_rows-counts k 0 none_yet rows w2.1 in
      ground (arith, checked, sum)

  -- Whatever the store, the BFF and the storage answer: where a result is returned, the file has been
  -- parsed, the rows of the result are those of the file, and each of them is counted once, as valid
  -- or as invalid.
  pub create_batch_from_file-counts :
      (s : Settings) (file : File) (w : World) (r : CreateBatchResult)
      → (create_batch_from_file env u matches text revision s file w).0 ≡ ok r
      → (rows : List Row) × (parse text (parser_of s) revision file.size file.sheet ≡ ok rows)
        × (r.total_rows ≡ length rows)
        × (r.valid_rows + r.invalid_rows ≡ length rows)
  unfolding create_batch_from_file create_parsed create_from_rows
  create_batch_from_file-counts s file w r h =
      elim (Result-cases (parse text (parser_of s) revision file.size file.sheet)) [
        | inl (rows, parsed) ↦
            let counts : (r.total_rows ≡ length rows)
                × (r.valid_rows + r.invalid_rows ≡ length rows) =
              ground (arith, parsed, create_from_rows-counts rows w r) in
            (rows, parsed, counts.0, counts.1)
        | inr (e, fails) ↦ ground (arith, fails)
      ]
