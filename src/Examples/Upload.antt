-- ===== src/Examples/Upload.antt =====
-- The upload of a file with two rows, the second of which is not valid.
use Prim.Native.String.{count}
use Prim.Native.String.count.{cons as count_cons}
use bulk.Base.{
  ℕ, zero, suc, ◌+◌, String, ◌≡◌, refl, ap, sym, ◌∙◌, Bool, true, List, [], ◌∷◌, map, length, none,
  some,
}
use bulk.Base.Int.{pos}
use bulk.World.{World, empty_file, ok, err}
use bulk.Postgres.Tables.{find_job, find_batch, jobs_of}
use bulk.Parser.Columns.{TextOps}
use bulk.Parser.Sheet.{Row, parse}
use bulk.Validation.Rules.{validate_row, validate, load_rules}
use bulk.Upload.{
  Uploader, Settings, File, BffReply, CreateBatchResult, parser_of, create_batch_from_file,
  create_from_rows, check_rows, judge_row, store_job, finish_upload,
}
use bulk.Postgres.Repositories.{create_batch, create_job, save_batch}
use bulk.Upload.Counts.{create_batch_from_file-counts}
use bulk.Upload.Jobs.{entries, entry_for}
use bulk.Upload.Stored.{create_batch_from_file-entries}
use bulk.Examples.{calm, identifier}

identifier-count : (n : ℕ) → count (identifier n) ≡ n
identifier-count zero = refl
identifier-count (suc n) = (λ i. count_cons "u" (identifier n) i) ∙ ap suc (identifier-count n)

identifier_distinct : (i j : ℕ) → identifier i ≡ identifier j → i ≡ j
identifier_distinct i j h = sym (identifier-count i) ∙ ap count h ∙ identifier-count j

abbrev pub empty_world : World
empty_world = record { batches = []; jobs = []; calls = 0; log = [] }

abbrev pub anything : String → String → Bool
anything p t = true

abbrev pub plain_text : TextOps
plain_text = record { to_lower = λ s. s; to_upper = λ s. s; trim_space = λ s. s }

-- The BFF accepts every row.
abbrev pub uploader : Uploader
uploader = record {
  batch_repo = true;
  job_repo = true;
  storage = true;
  validator = some (λ n fields revision. BffReply.verdict (record { valid = true; errors = [] }));
}

abbrev pub settings : Settings
settings = record {
  max_file_size = pos 100;
  max_rows_per_batch = pos 5;
  env_max_rows = none;
  env_max_megabytes = none;
}

abbrev pub two_rows : File
two_rows = record {
  size = 20;
  read_fault = none;
  sheet = ok (("dac" ∷ []) ∷ ("Ann" ∷ []) ∷ ("" ∷ []) ∷ []);
}

abbrev pub parsed_rows : List Row
parsed_rows =
    record { fields = ("DAC", "Ann") ∷ []; row_number = 2 }
    ∷ record { fields = ("DAC", "") ∷ []; row_number = 3 }
    ∷ []

pub two_rows_parsed :
    parse plain_text (parser_of settings) "US_CA_08292017" 20 two_rows.sheet ≡ ok parsed_rows
unfolding parse parser_of
two_rows_parsed = refl

create_batch_from_file-entries_example :
    entries ""
      (create_batch_from_file calm uploader anything plain_text "US_CA_08292017" settings two_rows
        empty_world).1
    ≡ map entry_for parsed_rows
unfolding find_job find_batch jobs_of
create_batch_from_file-entries_example =
    create_batch_from_file-entries calm uploader anything plain_text "US_CA_08292017" (λ n. refl)
      identifier_distinct refl refl empty_world (λ n. refl) refl refl settings two_rows parsed_rows
      refl refl two_rows_parsed

no_rows_refused : parse plain_text (parser_of settings) "v1" 20 (ok []) ≡ err empty_file
unfolding parse parser_of
no_rows_refused = refl

-- The first row is valid, the second one lacks its name.
abbrev uploaded : CreateBatchResult
uploaded = record {
  batch_id = "";
  total_rows = 2;
  valid_rows = 1;
  invalid_rows = 1;
  errors =
      record {
        row_number = pos 1;
        field = "";
        error_code = "MISSING_MANDATORY";
        error_message = "Field DAC is required";
        original_value = "";
      }
      ∷ [];
}

uploaded_lem :
    (create_batch_from_file calm uploader anything plain_text "US_CA_08292017" settings two_rows
      empty_world).0
    ≡ ok uploaded
unfolding create_batch_from_file parse parser_of create_from_rows check_rows judge_row store_job
    finish_upload create_batch create_job save_batch validate_row load_rules validate find_batch
uploaded_lem = refl

create_batch_from_file-counts_example :
    (rows : List Row) × (parse plain_text (parser_of settings) "US_CA_08292017" 20 two_rows.sheet
      ≡ ok rows)
    × (2 ≡ length rows)
    × (1 + 1 ≡ length rows)
create_batch_from_file-counts_example =
    create_batch_from_file-counts calm uploader anything plain_text "US_CA_08292017" settings
      two_rows empty_world uploaded uploaded_lem
