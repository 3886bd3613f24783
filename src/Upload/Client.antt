-- ===== src/Upload/Client.antt =====
-- internal/validation/bff_validator.go: the client of the validation BFF, up to HTTP and the JSON decoder,
-- which are parameters. Tracing and the header of the content type are left out.
use Prim.Native.String.{◌++◌ as append_text}
use bulk.Base.{ℕ, String, List, Option, none, some, if◌then◌else◌, str_eq, ◌==◌}
use bulk.Domain.{Fields}
use bulk.Billing.{HttpReply, no_reply, replied}
use bulk.Validation.Rules.{ValidationResult}
use bulk.Upload.{BffReply, failed, verdict}

pub record BffValidator : Type 0 where
  pub url : String
  pub token : String

-- The request with its `ValidateRequest`.
pub record ValidateRequest : Type 0 where
  pub url : String
  pub authorization : Option String
  pub revision : String
  pub fields : Fields

-- The decoding of a result, and the texts of the errors.
pub record ResultDecoder : Type 0 where
  pub result : List ℕ → Option ValidationResult
  pub decode_error : List ℕ → String
  pub status_error : ℕ → List ℕ → String

pub validate_request : BffValidator → Fields → String → ValidateRequest
validate_request v row revision = record {
  url = append_text v.url "/internal/validate";
  authorization = if str_eq v.token "" then none else some (append_text "Bearer " v.token);
  revision = revision;
  fields = row;
}

-- What the reply comes to.
unfoldable pub bff_reply : ResultDecoder → HttpReply → BffReply
bff_reply d (no_reply e) = failed e
bff_reply d (replied status body) =
    if status == 200
    then elim (d.result body) [ none ↦ failed (d.decode_error body) | some r ↦ verdict r ]
    else failed (d.status_error status body)

-- `ValidateRow`, where `http n` is the reply to outside call number n.
unfoldable pub validate_over_http :
    BffValidator
    → ResultDecoder
    → (ℕ → ValidateRequest → HttpReply)
    → ℕ
    → Fields
    → String
    → BffReply
unfolding validate_request bff_reply
validate_over_http v d http n row revision = bff_reply d (http n (validate_request v row revision))
