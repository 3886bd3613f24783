-- ===== src/World/Monad.antt =====
-- State, errors, and the record of what was sent out.
use bulk.Base.{◌≡◌, refl, ◌⊎◌, inl, inr, ℕ, suc, String, Bool, List, ◌∷◌, Option, none, some}
use bulk.Base.Int.{ℤ}
use bulk.Domain.{BatchStatus, Time, Fields, BulkResultEvent}
use bulk.World.Rows.{BatchRow, JobRow}

pub data Error : Type 0 where
  batch_repo_not_configured repos_not_configured : Error
  no_rows : Error
  file_too_large invalid_file_format empty_file too_many_rows too_many_cols invalid_headers : Error
  exceeds_approved : ℤ → ℤ → Error
  -- The error of a call to the store, to Kafka, to the BFF or to the file storage.
  outside : String → Error

pub data Result {ℓ} (A : Type ℓ) : Type ℓ where
  ok : A → Result A
  err : Error → Result A

-- A share `num / den`, which the source divides in `float64`.
pub record Ratio : Type 0 where
  pub num : ℤ
  pub den : ℤ

-- The event that `publishStatus` puts on the topic bulk.status.
pub record StatusEvent : Type 0 where
  pub batch_id : String
  pub status : BatchStatus
  pub total : ℤ
  pub completed : ℤ
  pub failed : ℤ
  pub pending : ℤ
  pub percent_complete : Ratio

-- The event of one job on the topic bulk.job, as its senders fill it.
pub record JobEvent : Type 0 where
  pub job_id : String
  pub batch_id : String
  pub user_id : String
  pub build_id : String
  pub row_number : ℤ
  pub revision : String
  pub fields : Fields
  pub billing_pre_approved : Bool
  pub transaction_id : Option String

-- What goes on a Kafka topic.
pub data Message : Type 0 where
  status_event : StatusEvent → Message
  job_event : JobEvent → Message
  partial_available : String → ℤ → ℤ → Message
  batch_refunded : String → List String → Message
  result_tagged : BulkResultEvent → Message
  barcodes_tagged : String → String → Option Fields → Message
  dead_letter : BulkResultEvent → Message

-- What the service has asked of the billing BFF, of Kafka and of the file storage.
pub data Event : Type 0 where
  quoted : String → ℤ → Event
  blocked : String → ℤ → String → Event
  refunded : String → List String → String → Event
  published : String → Message → Event
  publish_failed : String → Message → Event
  saved : String → Event

-- `log` has the newest event first. `calls` counts the outside calls made so far.
pub record World : Type 0 where
  pub batches : List BatchRow
  pub jobs : List JobRow
  pub calls : ℕ
  pub log : List Event

-- `billing.QuoteResponse`, as far as the code reads it: the units of each source, and the price of a
-- unit where it is not 0.
pub record Quote : Type 0 where
  pub allowed_total : ℤ
  pub can_process : Bool
  pub subscription : ℤ
  pub credits : ℤ
  pub wallet : ℤ
  pub unit_price : Option Ratio

-- The answer to outside call number n, were it of that kind. A faulty call to the store changes
-- nothing there.
pub record Env : Type 0 where
  pub store_fault : ℕ → Option Error
  pub publish_fault : ℕ → Option Error
  pub quote_reply : ℕ → Result (Option Quote)
  pub block_reply : ℕ → Result (Option (List String))
  pub refund_fault : ℕ → Option Error
  pub save_reply : ℕ → Result String
  pub now : ℕ → Time
  pub uuid : ℕ → String
  -- Whether `uuid.Parse` accepts the text.
  pub is_uuid : String → Bool

abbrev pub Action : Type 0 → Type 0
Action A = World → Result A × World

module _ {A : Type 0} where
  abbrev pub pure : A → Action A
  pure a w = (ok a, w)

  abbrev pub raise : Error → Action A
  raise e w = (err e, w)

  abbrev pub from_result : Result A → Action A
  from_result r w = (r, w)

  -- `x, err := …` where the code goes on after an error.
  abbrev pub attempt : Action A → Action (Result A)
  attempt m w = let (r, w') = m w in (ok r, w')

  -- `_ = …`
  abbrev pub ignore : Action A → Action (Unit {0})
  ignore m w = let (r, w') = m w in (ok tt, w')

infixl 5 ◌>>=◌ ◌>>◌
abbrev pub ◌>>=◌ : {A B : Type 0} → Action A → (A → Action B) → Action B
◌>>=◌ m f w = let (r, w') = m w in elim r [ ok a ↦ f a w' | err e ↦ (err e, w') ]

abbrev pub ◌>>◌ : {A B : Type 0} → Action A → Action B → Action B
m >> k = m >>= λ _. k

abbrev pub gets : {A : Type 0} → (World → A) → Action A
gets f w = (ok (f w), w)

abbrev pub modify : (World → World) → Action (Unit {0})
modify f w = (ok tt, f w)

abbrev pub record_event : Event → Action (Unit {0})
record_event e = modify λ w. record w { log = e ∷ w.log }

-- The number of the outside call that is made now.
abbrev pub next_call : Action ℕ
next_call w = (ok w.calls, record w { calls = suc w.calls })

abbrev pub fault_result : Option Error → Result (Unit {0})
fault_result none = ok tt
fault_result (some e) = err e

-- An outside call that can fail.
abbrev pub faulty : (ℕ → Option Error) → Action (Unit {0})
faulty fault w = (fault_result (fault w.calls), record w { calls = suc w.calls })

-- To split on an outcome and keep the equation.
pub Result-cases :
    {A : Type 0} (r : Result A) → ((a : A) × (r ≡ ok a)) ⊎ ((e : Error) × (r ≡ err e))
Result-cases (ok a) = inl (a, refl)
Result-cases (err e) = inr (e, refl)
