-- ===== src/Results.antt =====
-- The results of the generation: the handler of internal/di/di_handler.go, and the consumer of
-- internal/kafka/consumer.go that calls it. A message is an event, or none where its JSON does not
-- parse. Logging, metrics, tracing and the waits between attempts are left out.
pub mod Handled
pub mod DeadLetters
pub mod Late
use bulk.Base.{
  ℕ, zero, suc, String, Bool, true, false, ◌&&◌, ◌||◌, not, List, [], ◌∷◌, Option, none, some,
  if◌then◌else◌, str_eq,
}
use bulk.Base.Int.{ℤ, pos, negsuc}
use bulk.Domain.{Fields, JobResult, BulkResultEvent, job_status}
use bulk.World.{
  World, Env, Action, Result, ok, err, result_tagged, barcodes_tagged, dead_letter, pure, attempt,
  ignore, ◌>>=◌, ◌>>◌,
}
use bulk.Postgres.Repositories.{update_status_with_result}
use bulk.Outside.{publish}
use bulk.Manager.{BatchManager, on_job_status_change}

-- Which parts of the handler are set, and the tagger's topic.
pub record ResultHandler : Type 0 where
  pub job_repo : Bool
  pub history : Bool
  pub history_topic : String
  pub notifier : Option BatchManager

-- `ResultConsumer`
pub record ResultConsumer : Type 0 where
  pub handler : Option (BulkResultEvent → Action (Unit {0}))
  pub producer : Bool
  pub dlq_topic : String
  pub retry_count : ℤ

-- Barcode URLs that are there are stored as their JSON text.
abbrev urls_text : (Fields → String) → Option Fields → String
urls_text to_json none = ""
urls_text to_json (some urls) = to_json urls

module _ (env : Env) (to_json : Fields → String) where
  -- A transaction id of the event that is a UUID.
  pub transaction_of : Option String → String
  transaction_of none = ""
  transaction_of (some t) = if not (str_eq t "") && env.is_uuid t then t else ""

  unfoldable pub result_of : BulkResultEvent → JobResult
  unfolding transaction_of
  result_of ev = record {
    job_id = ev.job_id;
    row_number = pos 0;
    build_id = ev.build_id;
    barcode_urls = urls_text to_json ev.barcode_urls;
    error_code = "";
    error_message = "";
    billing_transaction_id = transaction_of ev.billing;
  }

  module _ (h : ResultHandler) where
    store_result : BulkResultEvent → Action (Unit {0})
    unfolding result_of
    store_result ev =
        if h.job_repo
        then ignore (update_status_with_result env ev.job_id (job_status ev.status) (result_of ev))
        else pure tt

    tag_result : BulkResultEvent → Action (Unit {0})
    tag_result ev =
        if h.history
        then (do
          ignore (publish env h.history_topic (result_tagged ev))
          if not (str_eq ev.batch_id "") && not (str_eq ev.job_id "")
              then ignore (
                  publish env h.history_topic
                    (barcodes_tagged ev.batch_id ev.job_id ev.barcode_urls))
              else pure tt)
        else pure tt

    notify : String → Action (Unit {0})
    notify k = elim h.notifier [ none ↦ pure tt | some m ↦ ignore (on_job_status_change env m k) ]

    -- The function that `buildResultHandler` returns.
    pub handle_result : BulkResultEvent → Action (Unit {0})
    unfolding store_result tag_result notify
    handle_result ev = do store_result ev; tag_result ev; notify ev.batch_id

-- `for attempt = 0; attempt <= retryCount; attempt++`
abbrev pub attempts : ℤ → ℕ
attempts (pos n) = suc n
attempts (negsuc n) = zero

-- The attempts that are left, and the outcome of the one before.
pub retry :
    (BulkResultEvent → Action (Unit {0}))
    → ℕ
    → Result (Unit {0})
    → BulkResultEvent
    → Action (Result (Unit {0}))
retry f zero last ev = pure last
retry f (suc n) last ev = do
  r ← attempt (f ev)
  elim r [ ok _ ↦ pure (ok tt) | err e ↦ retry f n (err e) ev ]

module _ (env : Env) (c : ResultConsumer) where
  -- What follows the attempts.
  settle : BulkResultEvent → Result (Unit {0}) → Action (Unit {0})
  settle ev (ok _) = pure tt
  settle ev (err e) =
      if c.producer && not (str_eq c.dlq_topic "")
      then ignore (publish env c.dlq_topic (dead_letter ev))
      else pure tt

  -- One round of the loop of `Start`.
  pub consume : Option BulkResultEvent → Action (Unit {0})
  unfolding retry settle
  consume none = pure tt
  consume (some ev) = elim c.handler [
    | none ↦ pure tt
    | some f ↦ (do r ← retry f (attempts c.retry_count) (ok tt) ev; settle ev r)
  ]

  -- `Start`, on the messages that are read before the reader fails.
  pub start : List (Option BulkResultEvent) → Action (Unit {0})
  start [] = pure tt
  start (m ∷ ms) = do consume m; start ms
