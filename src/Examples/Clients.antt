-- ===== src/Examples/Clients.antt =====
-- The clients of billing and of Kafka.
use bulk.Base.{
  ℕ, ◌≡◌, ◌≢◌, ◌⊎◌, refl, true, false, [], ◌∷◌, map, Option, none, some, arith, ◌==◌, if◌then◌else◌,
}
use bulk.Base.Int.{pos}
use bulk.Domain.{BatchStatus}
use bulk.World.{Error, outside}
use bulk.Postgres.Tables.{jobs_of}
use bulk.Postgres.RoundTrip.{stored, saved_over}
use bulk.Manager.{set_cancelled}
use bulk.Manager.Refund.{closed}
use bulk.Billing.{
  QuoteBreakdown, QuoteResponse, RawResp, Decoder, replied, only_units, first_byte, over_http,
  unmarshal_quote, to_quote,
}
use bulk.Billing.Shapes.{IsVariant, missing_units, unmarshal_quote-variant}
use bulk.Billing.Requests.{over_http-set_cancelled}
use bulk.Examples.{calm, paid, manager, paid_batch, paid-stored, job_rows, job_rows-Distinct}

abbrev sources : QuoteBreakdown
sources = record {
  subscription = only_units (pos 1);
  credits = only_units (pos 2);
  wallet = only_units (pos 0);
}

abbrev raw : RawResp
raw = record {
  can_process = true;
  can_generate = false;
  partial = true;
  requested = pos 5;
  allowed_total = pos 3;
  unit_price = pos 10;
  by_source = 123 ∷ [];
  shortfall = 123 ∷ [];
}

-- Two texts are responses, by their first bytes; the sources are an object in a text of one byte.
abbrev decoder : Decoder
decoder = record {
  response = λ text. elim text [
    | [] ↦ none
    | b ∷ bs ↦ some (
        if b == 1 then raw else record raw {
          can_process = false;
          can_generate = true;
          by_source = 123 ∷ 125 ∷ [];
          shortfall = 50 ∷ [];
        })
  ];
  breakdown =
      λ text. elim text [ [] ↦ none | b ∷ bs ↦ elim bs [ [] ↦ some sources | c ∷ cs ↦ none ] ];
  amounts = λ text. some (
      ("subscription", pos 1)
      ∷ ("credits", pos 7)
      ∷ ("credits_type1", pos 2)
      ∷ ("wallet", pos 0)
      ∷ []);
  shortfall = λ text. some (record { units = pos 2; amount_required = pos 20 });
  number = λ text. some (pos 2);
  transactions = λ text. some [];
  decode_error = λ text. "decode";
  status_error = λ call status body. call;
}

variants : IsVariant decoder (1 ∷ []) (2 ∷ [])
unfolding first_byte
variants = record {
  raw = raw;
  sources = sources;
  flat =
      ("subscription", pos 1)
      ∷ ("credits", pos 7)
      ∷ ("credits_type1", pos 2)
      ∷ ("wallet", pos 0)
      ∷ [];
  missing = record { units = pos 2; amount_required = pos 20 };
  flat_text = 123 ∷ 125 ∷ [];
  number_text = 50 ∷ [];
  plain_response = refl;
  variant_response = refl;
  has_sources = λ h. cc;
  has_flat = λ h. cc;
  decoded_sources = refl;
  not_sources = refl;
  decoded_flat = refl;
  subscription = refl;
  wallet = refl;
  credits = refl;
  is_object = refl;
  decoded_object = refl;
  is_number = (λ h. omega (arith, h), λ h. omega (arith, h));
  has_number = λ h. cc;
  decoded_number = refl;
}

unmarshal_quote-variant_example :
    (p v : QuoteResponse) × (unmarshal_quote decoder (1 ∷ []) ≡ some p)
    × (unmarshal_quote decoder (2 ∷ []) ≡ some v)
    × (to_quote p ≡ to_quote v)
    × (missing_units p ≡ missing_units v)
unmarshal_quote-variant_example = unmarshal_quote-variant decoder (1 ∷ []) (2 ∷ []) variants

over_http-set_cancelled_example :
    let after = (set_cancelled (over_http decoder (λ n. replied 503 []) calm) manager "b" paid).1 in
    let cancelled = record paid_batch { status = BatchStatus.cancelled } in
    ((◌≡◌ {A = ℕ} 503 200)
      × (jobs_of "b" after.jobs ≡ map closed (jobs_of "b" job_rows))
      × (stored "b" after
          ≡ some (saved_over paid_batch (record cancelled { billing_transaction_ids = [] }))))
    ⊎ ((◌≢◌ {A = ℕ} 503 200)
        × (after.jobs ≡ job_rows)
        × (stored "b" after ≡ some (saved_over paid_batch cancelled)))
over_http-set_cancelled_example =
    over_http-set_cancelled decoder calm 503 (λ n. []) manager paid "b" paid_batch "t1" ("t2" ∷ [])
      (λ n. refl) refl refl refl paid-stored refl job_rows-Distinct

-- The broker answers at the third attempt.
abbrev answers : ℕ → ℕ → Option Error
answers w n = if n == 2 then none else some (outside "timeout")
