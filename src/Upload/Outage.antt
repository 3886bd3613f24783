-- ===== src/Upload/Outage.antt =====
-- An upload while the validation BFF can not be used.
use bulk.Base.{
  ℕ, suc, String, ◌≡◌, ◌≢◌, refl, Bool, false, List, [], ◌∷◌, length, some, none, arith, inl, inr,
  Bool-cases, if◌then◌else◌,
}
use bulk.Base.Int.{pos, ltb_ℤ}
use bulk.Domain.{Batch, Fields, RowError}
use bulk.World.{World, Env, ok, pure}
use bulk.Billing.{HttpReply, no_reply, replied}
use bulk.Parser.Columns.{TextOps}
use bulk.Parser.Sheet.{Row, parse}
use bulk.Postgres.Tables.{find_batch}
use bulk.Postgres.Repositories.{create_batch}
use bulk.Validation.Rules.{load_rules, validate_row}
use bulk.Upload.{
  Uploader, Checked, CreateBatchResult, Settings, File, failed, parser_of, judge_row, judge_reply,
  row_error, row_errors, store_job, check_rows, count_row, new_batch, result_of, finish_upload,
  save_file, create_from_rows, create_parsed, create_batch_from_file,
}
use bulk.Upload.Counts.{store_job-ok, create_batch_from_file-counts}
use bulk.Upload.Client.{
  BffValidator, ResultDecoder, ValidateRequest, validate_request, bff_reply, validate_over_http,
}

-- No reply with status 200.
abbrev pub IsDown : HttpReply → Type 0
IsDown (no_reply e) = Unit
IsDown (replied status body) = status ≢ 200

bff_reply-failed :
    (d : ResultDecoder) (r : HttpReply) → IsDown r → (e : String) × (bff_reply d r ≡ failed e)
unfolding bff_reply
bff_reply-failed d (no_reply e) down = (e, refl)
bff_reply-failed d (replied status body) down = (d.status_error status body, ground (arith, down))

module _ (env : Env) (u : Uploader) (matches : String → String → Bool) (text : TextOps)
    (revision : String) (v : BffValidator) (d : ResultDecoder)
    (http : ℕ → ValidateRequest → HttpReply)
    (asked : u.validator ≡ some (validate_over_http v d http))
    (down : (n : ℕ) (req : ValidateRequest) → IsDown (http n req)) where
  judge_row_down :
      (i : ℕ) (fields : Fields) (w : World)
      → (errors : List RowError) × ((judge_row env u matches text revision i fields w).0
          ≡ ok (false, errors))
  unfolding judge_row judge_reply validate_over_http
  judge_row_down i fields w =
      let here = validate_row matches (load_rules revision) fields in
      let req = validate_request v fields revision in
      elim (Bool-cases here.valid) [
        | inl passes ↦
            let (e, fails) = bff_reply-failed d (http w.calls req) (down w.calls req) in
            (row_error i "VALIDATOR_ERROR" e ∷ [], ground (arith, passes, asked, fails))
        | inr broken ↦ (row_errors i here.errors, ground (arith, broken))
      ]

  check_rows_down :
      (k : String) (i : ℕ) (c : Checked) (rows : List Row) (w : World)
      → (c' : Checked) × ((check_rows env u matches text revision k i c rows w).0 ≡ ok c')
        × (c'.valid ≡ c.valid)
  unfolding check_rows
  check_rows_down k i c [] w = (c, refl, refl)
  check_rows_down k i c (row ∷ rows) w =
      let (errors, judged) = judge_row_down i row.fields w in
      let w1 = (judge_row env u matches text revision i row.fields w).1 in
      let w2 = (store_job env u matches text revision k row w1).1 in
      let (c', checked, same) = check_rows_down k (suc i) (count_row (false, errors) c) rows w2 in
      (
        c',
        ground (arith, judged, store_job-ok env u matches text revision k row w1, checked),
        ground (arith, same),
      )

  module _ (up : (n : ℕ) → env.store_fault n ≡ none)
      (saves : (n : ℕ) → (id : String) × (env.save_reply n ≡ ok id)) where
    finish_upload-ok :
        (k : String) (b : Batch) (c : Checked) (w : World)
        → (finish_upload env u matches text revision k b c w).0 ≡ ok tt
    unfolding finish_upload save_file
    finish_upload-ok k b c w = ground (arith, (saves w.calls).1)

    create_batch-ok :
        (b : Batch) (w : World)
        → find_batch b.id w.batches ≡ none
        → (create_batch env b w).0 ≡ ok tt
    unfolding create_batch
    create_batch-ok b w new = ground (arith, up w.calls, new)

    create_from_rows_down :
        (rows : List Row) (w : World)
        → find_batch (env.uuid w.calls) w.batches ≡ none
        → (r : CreateBatchResult) × ((create_from_rows env u matches text revision rows w).0 ≡ ok r)
          × (r.valid_rows ≡ 0)
          × (r.total_rows ≡ length rows)
    unfolding create_from_rows
    create_from_rows_down rows w new =
        let k = env.uuid w.calls in
        let b = new_batch k revision (length rows) in
        let none_yet : Checked = record { valid = 0; invalid = 0; errors = [] } in
        let w1 : World = record w { calls = suc w.calls } in
        let w2 = (if u.batch_repo then create_batch env b else pure tt) w1 in
        let (c, checked, same) = check_rows_down k 0 none_yet rows w2.1 in
        (
          result_of k (length rows) c,
          ground (
            arith,
            create_batch-ok b w1 new,
            checked,
            finish_upload-ok k b c
                (check_rows env u matches text revision k 0 none_yet rows w2.1).1,
          ),
          same,
          refl,
        )

    -- With a store and a file storage that answer and a new identifier: while the BFF does not reply with status 200, the
    -- upload of a file that the parser accepts succeeds, and counts each of its rows as invalid.
    pub create_batch_from_file-outage :
        (s : Settings) (file : File) (rows : List Row) (w : World)
        → find_batch (env.uuid w.calls) w.batches ≡ none
        → file.read_fault ≡ none
        → ltb_ℤ s.max_file_size (pos file.size) ≡ false
        → parse text (parser_of s) revision file.size file.sheet ≡ ok rows
        → (r : CreateBatchResult) × ((create_batch_from_file env u matches text revision s file w).0
            ≡ ok r)
          × (r.valid_rows ≡ 0)
          × (r.invalid_rows ≡ length rows)
          × (r.total_rows ≡ length rows)
    unfolding create_batch_from_file create_parsed
    create_batch_from_file-outage s file rows w new readable small parsed =
        let (r, made, none_valid, total) = create_from_rows_down rows w new in
        let done : (create_batch_from_file env u matches text revision s file w).0 ≡ ok r =
          ground (arith, readable, small, parsed, made) in
        let (_, _, all_rows, sum) =
          create_batch_from_file-counts env u matches text revision s file w r done in
        (r, done, none_valid, omega (arith, none_valid, sum, all_rows, total), total)
