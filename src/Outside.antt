-- ===== src/Outside.antt =====
-- The calls to Kafka and to the billing BFF, by the interfaces `ports.KafkaProducer` and
-- `ports.BillingClient` (internal/ports/ports.go) and the tagger of internal/history. What they
-- answer is given by `Env`; that they were made is kept in the log.
use bulk.Base.{suc, String, List, ◌∷◌, Option, none, some}
use bulk.Base.Int.{ℤ}
use bulk.World.{
  Env, Action, Error, Event, Message, Quote, quoted, blocked, refunded, published, publish_failed,
  fault_result,
}

abbrev publish_event : Option Error → String → Message → Event
publish_event none topic msg = published topic msg
publish_event (some e) topic msg = publish_failed topic msg

module _ (env : Env) where
  -- `KafkaProducer.Publish`, and so `Tagger.TagEvent`
  abbrev pub publish : String → Message → Action (Unit {0})
  publish topic msg w =
      let fault = env.publish_fault w.calls in
      (
        fault_result fault,
        record w { calls = suc w.calls; log = publish_event fault topic msg ∷ w.log },
      )

  -- `BillingClient.Quote`
  abbrev pub quote : String → ℤ → Action (Option Quote)
  quote user count w =
      (env.quote_reply w.calls, record w { calls = suc w.calls; log = quoted user count ∷ w.log })

  -- `BillingClient.BlockBatch`; the answer is a list of transaction ids, or nil.
  abbrev pub block_batch : String → ℤ → String → Action (Option (List String))
  block_batch user count batch w = (
    env.block_reply w.calls,
    record w { calls = suc w.calls; log = blocked user count batch ∷ w.log },
  )

  -- `BillingClient.RefundTransactions`
  abbrev pub refund_transactions : String → List String → String → Action (Unit {0})
  refund_transactions user txs batch w = (
    fault_result (env.refund_fault w.calls),
    record w { calls = suc w.calls; log = refunded user txs batch ∷ w.log },
  )
