-- ===== src/Examples/Outage.antt =====
-- An upload while the validation BFF answers with an error.
use bulk.Base.{ℕ, ◌≡◌, refl, [], none, some, arith}
use bulk.World.{ok}
use bulk.Billing.{HttpReply, replied}
use bulk.Postgres.Tables.{find_batch}
use bulk.Upload.{Uploader, CreateBatchResult, create_batch_from_file}
use bulk.Upload.Client.{BffValidator, ResultDecoder, ValidateRequest, validate_over_http}
use bulk.Upload.Outage.{create_batch_from_file-outage}
use bulk.Examples.{calm}
use bulk.Examples.Upload.{
  uploader, anything, settings, two_rows, parsed_rows, two_rows_parsed, empty_world, plain_text,
}

abbrev bff : BffValidator
bff = record { url = "https://bff"; token = "" }

abbrev decoder : ResultDecoder
decoder = record {
  result = λ body. none;
  decode_error = λ body. "decode";
  status_error = λ status body. "bff validate returned an error";
}

abbrev unavailable : ℕ → ValidateRequest → HttpReply
unavailable n req = replied 503 []

abbrev remote : Uploader
remote = record uploader { validator = some (validate_over_http bff decoder unavailable) }

create_batch_from_file-outage_example :
    (r : CreateBatchResult) × ((create_batch_from_file calm remote anything plain_text
        "US_CA_08292017" settings two_rows empty_world).0
      ≡ ok r)
    × (r.valid_rows ≡ 0)
    × (r.invalid_rows ≡ 2)
    × (r.total_rows ≡ 2)
unfolding find_batch
create_batch_from_file-outage_example =
    create_batch_from_file-outage calm remote anything plain_text "US_CA_08292017" bff decoder
      unavailable refl (λ n req h. omega (arith, h)) (λ n. refl) (λ n. ("f1", refl)) settings
      two_rows parsed_rows empty_world refl refl refl two_rows_parsed
