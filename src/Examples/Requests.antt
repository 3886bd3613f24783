-- ===== src/Examples/Requests.antt =====
-- An upload by a client, and the pages of a listing.
use bulk.Base.{ℕ, ◌≡◌, refl, ap, true, false, [], ◌∷◌, arith, Option, none, some, str_eq}
use bulk.Base.Int.{pos, negsuc, ◌*ℤ◌, ◌-ℤ◌, wrap_64}
use bulk.World.Rows.{BatchRow}
use bulk.Domain.{Batch, BatchStatus}
use bulk.World.{World, Env, Quote, Result, outside, ok, err}
use bulk.Postgres.Tables.{find_batch, find_job, update_batch}
use bulk.Postgres.Convert.{to_domain, scan_batch, to_postgres, insert_columns, update_columns}
use bulk.Postgres.Repositories.{create_batch, create_job, save_batch}
use bulk.Postgres.RoundTrip.{stored, saved_over}
use bulk.Postgres.Listing.{
  BatchFilter, OrderBy, list_batches, list_with_filters, with_defaults, row_matches, sort_column,
}
use bulk.Postgres.Listing.Pages.{key, matching, to_batch, IsOrdering, pages, pages-take}
use bulk.Postgres.Listing.Order.{StrictlySorted}
use bulk.Validation.Rules.{validate_row, validate, load_rules}
use bulk.Parser.Sheet.{parse}
use bulk.Upload.{
  File, CreateBatchResult, parser_of, create_batch_from_file, create_from_rows, check_rows,
  judge_row, store_job, finish_upload,
}
use bulk.Handlers.Reply.{reply, failure}
use bulk.Handlers.Upload.{UploadRequest, UploadService, given, handle_upload}
use bulk.Handlers.Upload.Sniff.{UploadFile, Sniffer, validate_upload}
use bulk.Handlers.Upload.Answer.{
  IsAccepted, told_status, handle_upload-told_status, handle_upload_no_quote,
}
use bulk.Handlers.Listing.{ListQuery, ListReply, list_filter, batch_item, handle_list_batches}
use bulk.Examples.{calm, one_row, plain, manager, plain_row}
use bulk.Examples.Handlers.{deps, go}
use bulk.Examples.Upload.{empty_world, anything, plain_text, uploader, settings}

abbrev one_name : File
one_name = record { size = 10; read_fault = none; sheet = ok (("dac" ∷ []) ∷ ("Ann" ∷ []) ∷ []) }

-- The file as it is sent: "dac\nAnn".
abbrev sent_file : UploadFile
sent_file = record {
  header_size = pos 7;
  extension = ".csv";
  head = 100 ∷ 97 ∷ 99 ∷ 10 ∷ 65 ∷ 110 ∷ 110 ∷ [];
  read_error = none;
  file = one_name;
}

abbrev sniffer : Sniffer
sniffer = record {
  detect_content_type = λ head. "text/plain";
  contains = λ s t. false;
  has_prefix = λ s t. str_eq s "text/plain";
}

abbrev upload_service : UploadService
upload_service = record {
  uploader = uploader;
  matches = anything;
  text = plain_text;
  settings = settings;
}

abbrev request : UploadRequest
request = record {
  content_length = negsuc 0;
  form_file = given sent_file;
  revision = "US_CA_08292017";
}

abbrev created : CreateBatchResult
created = record { batch_id = ""; total_rows = 1; valid_rows = 1; invalid_rows = 0; errors = [] }

abbrev no_row : Quote
no_row = record one_row { allowed_total = pos 0 }

-- Billing allows no row.
abbrev broke : Env
broke = record calm { quote_reply = λ n. ok (some no_row) }

-- Billing does not answer.
abbrev silent : Env
silent = record calm { quote_reply = λ n. err (outside "timeout") }

-- The batch that the upload makes, as it is stored.
abbrev created_batch : Batch
created_batch = record {
  id = "";
  user_id = "";
  status = BatchStatus.pending;
  revision = "US_CA_08292017";
  file_storage_id = "f1";
  total_rows = pos 1;
  valid_rows = pos 1;
  created_at = 2;
  approved_count = pos 0;
  completed_count = pos 0;
  failed_count = pos 0;
  completed_at = none;
  billing_transaction_ids = [];
  priority = "";
  timeout_ms = pos 0;
}

module _ (quote_reply : ℕ → Result (Option Quote)) where
  abbrev quoting : Env
  quoting = record calm { quote_reply = quote_reply }

  abbrev after_upload : World
  after_upload =
      (create_batch_from_file quoting uploader anything plain_text "US_CA_08292017" settings
        one_name empty_world).1

  created_lem :
      (create_batch_from_file quoting uploader anything plain_text "US_CA_08292017" settings
        one_name empty_world).0
      ≡ ok created
  unfolding create_batch_from_file parse parser_of create_from_rows check_rows judge_row store_job
      finish_upload create_batch create_job save_batch validate_row load_rules validate find_batch
  created_lem = refl

  created-stored : stored "" after_upload ≡ some created_batch
  unfolding create_batch_from_file parse parser_of create_from_rows check_rows judge_row store_job
      finish_upload create_batch create_job save_batch validate_row load_rules validate find_batch
      to_domain scan_batch to_postgres insert_columns update_batch update_columns find_job
  created-stored = refl

  accepted :
      IsAccepted quoting
        (some upload_service)
        sniffer
        (pos 1000)
        request
        empty_world
        created
        after_upload
  unfolding validate_upload
  accepted = record {
    file = sent_file;
    upload_service = upload_service;
    sent = refl;
    set = refl;
    small = refl;
    taken = refl;
    named = refl;
    made = ap (λ r. (r, after_upload)) created_lem;
  }

handle_upload-told_status_example :
    let r = handle_upload broke deps (some upload_service) sniffer (pos 1000) request empty_world in
    (c : Batch) × (stored "" r.1 ≡ some c) × (told_status r.0 ≡ some c.status)
handle_upload-told_status_example =
    handle_upload-told_status broke deps (some upload_service) sniffer (pos 1000) request
      empty_world created (after_upload (λ n. ok (some no_row))) manager no_row created_batch
      (λ n. refl) (λ n. refl) refl refl refl refl (accepted (λ n. ok (some no_row)))
      (created-stored (λ n. ok (some no_row)))

handle_upload_no_quote_example :
    let r =
      handle_upload silent deps (some upload_service) sniffer (pos 1000) request empty_world in
    (r.0 ≡ failure 503 "BILLING_ERROR" "billing quote failed")
    × (stored "" r.1
        ≡ some (saved_over created_batch (record created_batch { status = BatchStatus.ready })))
handle_upload_no_quote_example =
    handle_upload_no_quote silent deps (some upload_service) sniffer (pos 1000) request empty_world
      created (after_upload (λ n. err (outside "timeout"))) manager created_batch (λ n. refl)
      (λ n. (outside "timeout", refl)) refl refl refl refl (accepted (λ n. err (outside "timeout")))
      refl (created-stored (λ n. err (outside "timeout")))

-- The order of the table.
abbrev as_stored : OrderBy
as_stored n column desc rows = rows

abbrev every_batch : BatchFilter
every_batch = record {
  status = "";
  from = none;
  to = some 9;
  page = pos 1;
  limit = pos 1;
  user_id = "u";
  revision = "";
  sort_by = "";
  sort_desc = true;
  cursor = "";
}

-- A later batch, before the one that is there.
abbrev later_row : BatchRow
later_row = record plain_row { id = "c"; created_at = 8 }

abbrev two_batches : World
two_batches = record plain { batches = later_row ∷ plain_row ∷ [] }

two_batches-sorted : StrictlySorted (key every_batch) true (later_row ∷ plain_row ∷ [])
unfolding sort_column
two_batches-sorted = ((refl, tt), (tt, tt))

two_batches-match : matching go.parse_time every_batch two_batches ≡ later_row ∷ plain_row ∷ []
unfolding row_matches sort_column
two_batches-match = refl

as_stored-IsOrdering : IsOrdering as_stored go.parse_time every_batch two_batches
as_stored-IsOrdering c = rw two_batches-match (two_batches-sorted, ((λ P h. h), (λ P h. h)))

pages-take_example :
    (pages calm as_stored go.parse_time every_batch 2 two_batches).0
    ≡ to_batch later_row ∷ to_batch plain_row ∷ []
pages-take_example =
    pages-take calm as_stored go.parse_time every_batch two_batches 2 0 (later_row ∷ plain_row ∷ [])
      (λ n. refl) refl (omega arith) as_stored-IsOrdering two_batches-sorted
      (rw two_batches-match ((λ P h. h), (λ P h. h)))

abbrev query : ListQuery
query = record {
  status = "ready";
  page = "0";
  limit = "2";
  from = "";
  to = "";
  user_id = "u";
  path_user_id = "";
  revision = "";
  sort_by = "";
  order = "desc";
  cursor = "";
}

-- The answer to it.
abbrev listing : ListReply
listing = record {
  items =
      record {
        batch_id = "b";
        status = BatchStatus.ready;
        total_jobs = pos 2;
        completed_jobs = pos 0;
        failed_jobs = pos 0;
        created_at = 7;
        completed_at = none;
      }
      ∷ [];
  page = pos 1;
  limit = pos 2;
  total = 1;
}

query-listing : (handle_list_batches calm as_stored go deps query plain).0 ≡ reply 200 listing
unfolding handle_list_batches list_filter list_batches list_with_filters with_defaults row_matches
    sort_column batch_item to_domain scan_batch ◌*ℤ◌ ◌-ℤ◌ wrap_64
query-listing = refl
