-- ===== src/Billing/Shapes.antt =====
-- The shapes in which billing answers a quote.
use bulk.Base.{ℕ, String, ◌≡◌, ◌≢◌, refl, false, List, [], ◌∷◌, Option, none, some, arith, lookup}
use bulk.Base.Int.{ℤ, pos}
use bulk.Billing.{
  QuoteBreakdown, Shortfall, QuoteResponse, RawResp, Decoder, flat_breakdown, first_byte,
  by_source_of, shortfall_of, response_of, unmarshal_quote, to_quote,
}

-- The units that are missing, if a response says so.
abbrev pub missing_units : QuoteResponse → Option ℤ
missing_units q = elim q.shortfall [ none ↦ none | some s ↦ some s.units ]

-- Two answers of the same content: the first as its fields are named, with an object for the sources
-- and one for the shortfall; the second with `canGenerate`, with a flat map of the sources, in which the
-- credits are those of the first type, and with a number for the shortfall.
pub record IsVariant (d : Decoder) (plain variant : List ℕ) : Type 0 where
  pub raw : RawResp
  pub sources : QuoteBreakdown
  pub flat : List (String × ℤ)
  pub missing : Shortfall
  pub flat_text : List ℕ
  pub number_text : List ℕ
  pub plain_response : d.response plain ≡ some (record raw { can_generate = false })
  pub variant_response :
      d.response variant
      ≡ some (record raw {
        can_process = false;
        can_generate = raw.can_process;
        by_source = flat_text;
        shortfall = number_text;
      })
  pub has_sources : raw.by_source ≢ []
  pub has_flat : flat_text ≢ []
  pub decoded_sources : d.breakdown raw.by_source ≡ some sources
  pub not_sources : d.breakdown flat_text ≡ none
  pub decoded_flat : d.amounts flat_text ≡ some flat
  pub subscription : lookup "subscription" flat ≡ some sources.subscription.units
  pub wallet : lookup "wallet" flat ≡ some sources.wallet.units
  pub credits : lookup "credits_type1" flat ≡ some sources.credits.units
  pub is_object : first_byte raw.shortfall ≡ 123
  pub decoded_object : d.shortfall raw.shortfall ≡ some missing
  pub is_number : (first_byte number_text ≢ 123) × (first_byte number_text ≢ 91)
  pub has_number : number_text ≢ []
  pub decoded_number : d.number number_text ≡ some missing.units

by_source_of-object :
    (d : Decoder) (text : List ℕ) (qb : QuoteBreakdown)
    → text ≢ []
    → d.breakdown text ≡ some qb
    → by_source_of d text ≡ qb
unfolding by_source_of
by_source_of-object d [] qb there h = absurd (there refl)
by_source_of-object d (b ∷ bs) qb there h = ground (arith, h)

by_source_of-flat :
    (d : Decoder) (text : List ℕ) (m : List (String × ℤ))
    → text ≢ []
    → d.breakdown text ≡ none
    → d.amounts text ≡ some m
    → by_source_of d text ≡ flat_breakdown m
unfolding by_source_of
by_source_of-flat d [] m there h k = absurd (there refl)
by_source_of-flat d (b ∷ bs) m there h k = ground (arith, h, k)

shortfall_of-object :
    (d : Decoder) (text : List ℕ) → first_byte text ≡ 123 → shortfall_of d text ≡ d.shortfall text
unfolding shortfall_of first_byte
shortfall_of-object d [] h = absurd (omega (arith, h))
shortfall_of-object d (b ∷ bs) h = ground (arith, h)

shortfall_of-number :
    (d : Decoder) (text : List ℕ) (n : ℤ)
    → text ≢ []
    → first_byte text ≢ 123
    → first_byte text ≢ 91
    → d.number text ≡ some n
    → shortfall_of d text ≡ some (record { units = n; amount_required = pos 0 })
unfolding shortfall_of
shortfall_of-number d [] n there brace bracket h = absurd (there refl)
shortfall_of-number d (b ∷ bs) n there brace bracket h = ground (arith, h)

-- Two answers of the same content are read alike: as the same quote for the rest of the service, and the
-- same number of units that are missing. The first has its fields as they are named, with objects for the
-- sources and for the shortfall. The second has `canGenerate`, a number for the shortfall, and a flat map of
-- the sources that is not decoded as an object and has all of the three keys subscription, wallet and
-- credits_type1.
pub unmarshal_quote-variant :
    (d : Decoder) (plain variant : List ℕ)
    → IsVariant d plain variant
    → (p v : QuoteResponse) × (unmarshal_quote d plain ≡ some p)
      × (unmarshal_quote d variant ≡ some v)
      × (to_quote p ≡ to_quote v)
      × (missing_units p ≡ missing_units v)
unfolding unmarshal_quote response_of to_quote flat_breakdown
unmarshal_quote-variant d plain variant h =
    let p_sources =
      by_source_of-object d h.raw.by_source h.sources h.has_sources h.decoded_sources in
    let v_sources =
      by_source_of-flat d h.flat_text h.flat h.has_flat h.not_sources h.decoded_flat in
    let p_missing = shortfall_of-object d h.raw.shortfall h.is_object in
    let v_missing =
      shortfall_of-number d h.number_text h.missing.units h.has_number h.is_number.0 h.is_number.1
        h.decoded_number in
    (
      response_of d (record h.raw { can_generate = false }),
      response_of d (record h.raw {
        can_process = false;
        can_generate = h.raw.can_process;
        by_source = h.flat_text;
        shortfall = h.number_text;
      }),
      ground (arith, h.plain_response),
      ground (arith, h.variant_response),
      ground (arith, p_sources, v_sources, h.subscription, h.wallet, h.credits),
      ground (arith, p_missing, v_missing, h.decoded_object),
    )
