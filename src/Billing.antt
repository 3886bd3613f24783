-- ===== src/Billing.antt =====
-- internal/billing/client.go: the client of the billing BFF, up to HTTP and the JSON decoder, which are
-- parameters. A text of JSON is its bytes, and its numbers are integers. Metrics, tracing and the header
-- of the content type are left out.
pub mod Shapes
pub mod Requests
use Prim.Native.String.{◌++◌ as append_text}
use bulk.Base.{
  ℕ, zero, suc, String, Bool, true, false, ◌||◌, List, [], ◌∷◌, Option, none, some, if◌then◌else◌,
  str_eq, ◌==◌, lookup,
}
use bulk.Base.Int.{ℤ, pos, negsuc}
use bulk.World.{
  Env, Event, quoted, blocked, refunded, Error, Result, ok, err, outside, Quote, Ratio,
}

pub record SourceBreakdown : Type 0 where
  pub units : ℤ
  pub remaining : ℤ
  pub amount : ℤ

pub record QuoteBreakdown : Type 0 where
  pub subscription : SourceBreakdown
  pub credits : SourceBreakdown
  pub wallet : SourceBreakdown

pub record Shortfall : Type 0 where
  pub units : ℤ
  pub amount_required : ℤ

pub record QuoteResponse : Type 0 where
  pub can_process : Bool
  pub can_generate : Bool
  pub partial : Bool
  pub requested : ℤ
  pub allowed_total : ℤ
  pub unit_price : ℤ
  pub by_source : QuoteBreakdown
  pub shortfall : Option Shortfall

-- `rawResp`, whose last two fields are left as texts, empty where they are not there.
pub record RawResp : Type 0 where
  pub can_process : Bool
  pub can_generate : Bool
  pub partial : Bool
  pub requested : ℤ
  pub allowed_total : ℤ
  pub unit_price : ℤ
  pub by_source : List ℕ
  pub shortfall : List ℕ

-- `json.Unmarshal` into each of the types that the client asks for, `none` where it fails, and the texts
-- of the errors.
pub record Decoder : Type 0 where
  pub response : List ℕ → Option RawResp
  pub breakdown : List ℕ → Option QuoteBreakdown
  pub amounts : List ℕ → Option (List (String × ℤ))
  pub shortfall : List ℕ → Option Shortfall
  pub number : List ℕ → Option ℤ
  pub transactions : List ℕ → Option (List String)
  pub decode_error : List ℕ → String
  pub status_error : String → ℕ → List ℕ → String

abbrev pub only_units : ℤ → SourceBreakdown
only_units n = record { units = n; remaining = pos 0; amount = pos 0 }

abbrev pub no_units : QuoteBreakdown
no_units = record {
  subscription = only_units (pos 0);
  credits = only_units (pos 0);
  wallet = only_units (pos 0);
}

-- `if v, ok := m[…]; ok { … = int(v) }`
abbrev pub if_there : Option ℤ → ℤ → ℤ
if_there none old = old
if_there (some v) old = v

-- The flat map of units, where `credits_type1` wins over `credits`.
pub flat_breakdown : List (String × ℤ) → QuoteBreakdown
flat_breakdown m = record {
  subscription = only_units (if_there (lookup "subscription" m) (pos 0));
  wallet = only_units (if_there (lookup "wallet" m) (pos 0));
  credits =
      only_units (if_there (lookup "credits_type1" m) (if_there (lookup "credits" m) (pos 0)));
}

abbrev is_space : ℕ → Bool
is_space b = b == 32 || (b == 10 || (b == 9 || b == 13))

-- The first byte that is no space, and 0 where there is none.
unfoldable pub first_byte : List ℕ → ℕ
first_byte [] = 0
first_byte (b ∷ bs) = if is_space b then first_byte bs else b

module _ (d : Decoder) where
  pub by_source_of : List ℕ → QuoteBreakdown
  unfolding flat_breakdown
  by_source_of [] = no_units
  by_source_of (b ∷ bs) = elim (d.breakdown (b ∷ bs)) [
    | some qb ↦ qb
    | none ↦ elim (d.amounts (b ∷ bs)) [ some m ↦ flat_breakdown m | none ↦ no_units ]
  ]

  pub shortfall_of : List ℕ → Option Shortfall
  unfolding first_byte
  shortfall_of [] = none
  shortfall_of (b ∷ bs) =
      let first = first_byte (b ∷ bs) in
      if first == 123 || first == 91 then d.shortfall (b ∷ bs) else elim (d.number (b ∷ bs)) [
        | none ↦ none
        | some n ↦ some (record { units = n; amount_required = pos 0 })
      ]

  -- The fields that `UnmarshalJSON` sets.
  pub response_of : RawResp → QuoteResponse
  unfolding by_source_of shortfall_of
  response_of r = record {
    can_process = r.can_process || r.can_generate;
    can_generate = r.can_generate;
    partial = r.partial;
    requested = r.requested;
    allowed_total = r.allowed_total;
    unit_price = r.unit_price;
    by_source = by_source_of r.by_source;
    shortfall = shortfall_of r.shortfall;
  }

  -- `UnmarshalJSON`
  pub unmarshal_quote : List ℕ → Option QuoteResponse
  unfolding response_of
  unmarshal_quote text = elim (d.response text) [ none ↦ none | some r ↦ some (response_of r) ]

-- What the service reads of a response.
abbrev price_of : ℤ → Option Ratio
price_of (pos zero) = none
price_of p = some (record { num = p; den = pos 1 })

pub to_quote : QuoteResponse → Quote
to_quote qr = record {
  allowed_total = qr.allowed_total;
  can_process = qr.can_process;
  subscription = qr.by_source.subscription.units;
  credits = qr.by_source.credits.units;
  wallet = qr.by_source.wallet.units;
  unit_price = price_of qr.unit_price;
}

-- `BFFBillingClient`, and a request that it makes.
pub record BffClient : Type 0 where
  pub url : String
  pub token : String

pub data Body : Type 0 where
  quote_body : String → ℤ → Body
  block_body : String → ℤ → String → Body
  refund_body : String → List String → String → Body

pub record HttpRequest : Type 0 where
  pub url : String
  pub authorization : Option String
  pub body : Body

-- `c.client.Do`: no reply, with the text of the error, or a status and a body.
pub data HttpReply : Type 0 where
  no_reply : String → HttpReply
  replied : ℕ → List ℕ → HttpReply

-- A request to a path of the BFF, with the token if there is one.
pub post : BffClient → String → Body → HttpRequest
post c path body = record {
  url = append_text c.url path;
  authorization = if str_eq c.token "" then none else some (append_text "Bearer " c.token);
  body = body;
}

-- The request that an event of the log stands for, if it is one to billing.
pub request_of : BffClient → Event → Option HttpRequest
unfolding post
request_of c (quoted user count) = some (post c "/internal/billing/quote" (quote_body user count))
request_of c (blocked user count batch) =
    some (post c "/internal/billing/block-batch" (block_body user count batch))
request_of c (refunded user txs batch) =
    some (post c "/internal/billing/refund" (refund_body user txs batch))
request_of c _ = none

-- The body of a reply with status 200, or the error.
pub accepted_body : Decoder → String → HttpReply → Result (List ℕ)
accepted_body d call (no_reply e) = err (outside e)
accepted_body d call (replied status body) =
    if status == 200 then ok body else err (outside (d.status_error call status body))

abbrev decoded : {A : Type 0} → Decoder → List ℕ → Option A → Result (Option A)
decoded d body none = err (outside (d.decode_error body))
decoded d body (some a) = ok (some a)

module _ (d : Decoder) where
  -- `Quote`, `BlockBatch` and `RefundTransactions`, by the reply to their request.
  pub quote_result : HttpReply → Result (Option Quote)
  unfolding accepted_body unmarshal_quote to_quote
  quote_result r = elim (accepted_body d "quote" r) [
    | err e ↦ err e
    | ok body ↦
        decoded d body
          (elim (unmarshal_quote d body) [ none ↦ none | some qr ↦ some (to_quote qr) ])
  ]

  pub block_result : HttpReply → Result (Option (List String))
  unfolding accepted_body
  block_result r = elim (accepted_body d "block-batch" r) [
    | err e ↦ err e
    | ok body ↦ decoded d body (d.transactions body)
  ]

  pub refund_error : HttpReply → Option Error
  unfolding accepted_body
  refund_error r = elim (accepted_body d "refund" r) [ err e ↦ some e | ok body ↦ none ]

-- The port of billing as the client fills it: `http` replies to outside call number n.
unfoldable pub over_http : Decoder → (ℕ → HttpReply) → Env → Env
unfolding quote_result block_result refund_error
over_http d http env = record env {
  quote_reply = λ n. quote_result d (http n);
  block_reply = λ n. block_result d (http n);
  refund_fault = λ n. refund_error d (http n);
}
