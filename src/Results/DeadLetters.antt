-- ===== src/Results/DeadLetters.antt =====
-- When the consumer gives up on a message.
use bulk.Base.{
  inl, inr, Option-cases, ℕ, zero, suc, String, ◌≡◌, ◌≢◌, refl, true, List, [], ◌∷◌, Option, none,
  some, arith, eq_iff, ◌∙◌,
}
use bulk.Base.Int.{pos}
use bulk.Domain.{Fields, BulkResultEvent}
use bulk.World.{
  World, Env, Event, Error, Action, ok, err, published, publish_failed, dead_letter, Result-cases,
  ignore,
}
use bulk.Postgres.Repositories.{update_status_with_result}
use bulk.Manager.Log.{on_job_status_change-log}
use bulk.Outside.{publish}
use bulk.Results.{
  ResultHandler, ResultConsumer, handle_result, store_result, tag_result, notify, retry, settle,
  consume, start,
}

-- The messages that were sent to the dead letter topic, the newest first.
abbrev pub dead_letters : List Event → List BulkResultEvent
dead_letters [] = []
dead_letters (published topic (dead_letter ev) ∷ log) = ev ∷ dead_letters log
dead_letters (publish_failed topic (dead_letter ev) ∷ log) = ev ∷ dead_letters log
dead_letters (_ ∷ log) = dead_letters log

abbrev pub repeat {ℓ} : {A : Type ℓ} → ℕ → (A → A) → A → A
repeat zero f x = x
repeat (suc n) f x = repeat n f (f x)

retry_fails :
    (f : BulkResultEvent → Action (Unit {0})) (ev : BulkResultEvent)
    → ((w : World) → (f ev w).0 ≢ ok tt)
    → (n : ℕ) (e : Error) (w : World)
    → (e' : Error) × (retry f n (err e) ev w ≡ (ok (err e'), repeat n (λ v. (f ev v).1) w))
unfolding retry
retry_fails f ev fails zero e w = (e, refl)
retry_fails f ev fails (suc n) e w = elim (Result-cases (f ev w).0) [
  | inl (_, passes) ↦ ground (arith, fails w, passes)
  | inr (e', failing) ↦
      let (last, rest) = retry_fails f ev fails n e' (f ev w).1 in
      (last, ground (arith, failing, rest))
]

-- A handler that never succeeds on a message is called once more than the retry count, one attempt
-- after the other, and then the message goes to the dead letter topic.
pub consume-dead_letter :
    (env : Env) (c : ResultConsumer) (f : BulkResultEvent → Action (Unit {0}))
    (ev : BulkResultEvent) (n : ℕ) (w : World)
    → c.handler ≡ some f
    → c.retry_count ≡ pos n
    → c.producer ≡ true
    → c.dlq_topic ≢ ""
    → ((v : World) → (f ev v).0 ≢ ok tt)
    → consume env c (some ev) w
      ≡ ignore (publish env c.dlq_topic (dead_letter ev)) (repeat (suc n) (λ v. (f ev v).1) w)
unfolding consume settle retry
consume-dead_letter env c f ev n w hf hn hp named fails = elim (Result-cases (f ev w).0) [
  | inl (_, passes) ↦ ground (arith, fails w, passes)
  | inr (e, failing) ↦
      let (last, rest) = retry_fails f ev fails n e (f ev w).1 in
      ground (arith, failing, rest, eq_iff c.dlq_topic "")
]

module _ (env : Env) (to_json : Fields → String) (h : ResultHandler) where
  handle_result_steps :
      (ev : BulkResultEvent) (w : World)
      → handle_result env to_json h ev w ≡ (
        ok tt,
        (notify env to_json h ev.batch_id
            (tag_result env to_json h ev (store_result env to_json h ev w).1).1).1,
      )
  unfolding handle_result store_result tag_result notify
  handle_result_steps ev w = ground arith

  store_result-log :
      (ev : BulkResultEvent) (w : World) → (store_result env to_json h ev w).1.log ≡ w.log
  unfolding store_result update_status_with_result
  store_result-log ev w = ground arith

  tag_result-log :
      (ev : BulkResultEvent) (w : World)
      → dead_letters (tag_result env to_json h ev w).1.log ≡ dead_letters w.log
  unfolding tag_result
  tag_result-log ev w = ground arith

  notify-log :
      (k : String) (w : World) → dead_letters (notify env to_json h k w).1.log ≡ dead_letters w.log
  unfolding notify
  notify-log k w = elim (Option-cases h.notifier) [
    | inl unset ↦ ground (arith, unset)
    | inr (m, set) ↦ ground (
      arith,
      set,
      on_job_status_change-log dead_letters (λ topic e log. refl) (λ topic e log. refl) env m k w,
    )
  ]

  handle_result-log :
      (ev : BulkResultEvent) (w : World)
      → dead_letters (handle_result env to_json h ev w).1.log ≡ dead_letters w.log
  handle_result-log ev w =
      let w1 = (store_result env to_json h ev w).1 in
      let w2 = (tag_result env to_json h ev w1).1 in
      ground (
        arith,
        handle_result_steps ev w,
        store_result-log ev w,
        tag_result-log ev w1,
        notify-log ev.batch_id w2,
      )

  -- Each event handled once, in order; messages that do not parse are passed over.
  abbrev pub handle_all : List (Option BulkResultEvent) → World → World
  handle_all [] w = w
  handle_all (none ∷ ms) w = handle_all ms w
  handle_all (some ev ∷ ms) w = handle_all ms (handle_result env to_json h ev w).1

  handle_all-log :
      (ms : List (Option BulkResultEvent)) (w : World)
      → dead_letters (handle_all ms w).log ≡ dead_letters w.log
  handle_all-log [] w = refl
  handle_all-log (none ∷ ms) w = handle_all-log ms w
  handle_all-log (some ev ∷ ms) w =
      handle_all-log ms (handle_result env to_json h ev w).1 ∙ handle_result-log ev w

  module _ (c : ResultConsumer) (n : ℕ) (hc : c.handler ≡ some (handle_result env to_json h))
      (hn : c.retry_count ≡ pos n) where
    consume_handled :
        (ev : BulkResultEvent) (w : World)
        → consume env c (some ev) w ≡ (ok tt, (handle_result env to_json h ev w).1)
    unfolding consume settle retry
    consume_handled ev w = ground (arith, handle_result_steps ev w)

    start_handled :
        (ms : List (Option BulkResultEvent)) (w : World)
        → start env c ms w ≡ (ok tt, handle_all ms w)
    unfolding start consume
    start_handled [] w = refl
    start_handled (none ∷ ms) w = start_handled ms w
    start_handled (some ev ∷ ms) w =
        ground (arith, consume_handled ev w, start_handled ms (handle_result env to_json h ev w).1)

    -- With the handler of results each message that parses is handled once, in the order of the messages,
    -- and none ever reaches the dead letter topic, whatever the store and Kafka answer and how often the
    -- consumer may retry.
    pub start-handle_all :
        (ms : List (Option BulkResultEvent)) (w : World)
        → (start env c ms w ≡ (ok tt, handle_all ms w))
          × (dead_letters (handle_all ms w).log ≡ dead_letters w.log)
    start-handle_all ms w = (start_handled ms w, handle_all-log ms w)
