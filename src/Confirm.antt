-- ===== src/Confirm.antt =====
-- `Service.ConfirmBatch` of internal/usecase/bulk/service.go: billing is asked to reserve `count`
-- rows, and the first `count` jobs are published. Logging, metrics, the timestamp and the metadata of
-- an event are left out.
pub mod Steps
pub mod Queue
pub mod Billing
pub mod Tries
pub mod Rounds
pub mod Rollback
pub mod Failed
use bulk.Base.{
  ℕ, suc, ◌+◌, String, Bool, true, false, ◌&&◌, ◌||◌, not, List, [], ◌∷◌, ◌++◌, length, drop,
  get_elem?, Option, none, some, if◌then◌else◌, str_eq, ◌==◌, ltb,
}
use bulk.Base.Int.{ℤ, pos, ltb_ℤ}
use bulk.Domain.{Batch, Job, BatchStatus, JobStatus, Fields, InputData}
use bulk.World.{
  World, Env, Action, Result, ok, err, JobEvent, Message, job_event, exceeds_approved, no_rows,
  pure, raise, attempt, ignore, ◌>>=◌, ◌>>◌,
}
use bulk.Postgres.Repositories.{
  get_batch, save_batch, get_jobs, update_status, update_billing_transaction_id,
}
use bulk.Outside.{publish, block_batch, refund_transactions}

-- Which parts of the service are set; `job_topic` is the variable KAFKA_TOPIC_BULK_JOB, or empty.
pub record Service : Type 0 where
  pub batch_repo : Bool
  pub job_repo : Bool
  pub billing : Bool
  pub producer : Bool
  pub job_topic : String

-- The shapes of `blockFunc`'s answer that the code looks into: a response, a map with a list of
-- texts, a map with a list of any values (`none` for one that is no text), or anything else.
pub data HookReply : Type 0 where
  response : List String → HookReply
  map_texts : List String → HookReply
  map_values : List (Option String) → HookReply
  unknown : HookReply

keep_texts : List (Option String) → List String
keep_texts [] = []
keep_texts (none ∷ vs) = keep_texts vs
keep_texts (some v ∷ vs) = v ∷ keep_texts vs

transaction_ids : HookReply → List String
unfolding keep_texts
transaction_ids (response txs) = txs
transaction_ids (map_texts txs) = txs
transaction_ids (map_values vs) = keep_texts vs
transaction_ids unknown = []

-- The two test hooks, `blockFunc` and `publishFunc`; production passes nil for both.
pub record Hooks : Type 0 where
  pub block : Option (Action HookReply)
  pub send : Option (String → Message → Action (Unit {0}))

abbrev pub no_hooks : Hooks
no_hooks = record { block = none; send = none }

-- `assignTx`; where there are as many transactions as rows, `i` is in range.
pub assign_tx : List String → ℤ → ℕ → Option String
assign_tx [] count i = none
assign_tx (t ∷ []) count i = some t
assign_tx (t ∷ u ∷ ts) count i =
    let txs = t ∷ u ∷ ts in
    if not (ltb_ℤ (pos (length txs)) count) && not (ltb_ℤ count (pos (length txs)))
    then get_elem? txs i
    else if ltb i (length txs)
    then get_elem? txs i
    else none

pub fields_of : InputData → Fields
fields_of (InputData.object fields) = fields
fields_of _ = []

abbrev is_some : Option String → Bool
is_some none = false
is_some (some _) = true

-- The event of the topic bulk.job.
pub event_of : String → String → Job → Option String → JobEvent
unfolding fields_of
event_of user revision j tx = record {
  job_id = j.id;
  batch_id = j.batch_id;
  user_id = user;
  build_id = j.id;
  row_number = j.row_number;
  revision = revision;
  fields = fields_of j.input_data;
  billing_pre_approved = is_some tx;
  transaction_id = tx;
}

-- The variables of the publishing loop.
pub record Progress : Type 0 where
  pub queued : ℕ
  pub publish_error : Bool
  pub assigned : List String

abbrev pub no_progress : Progress
no_progress = record { queued = 0; publish_error = false; assigned = [] }

abbrev pub topic_of : String → String
topic_of topic = if str_eq topic "" then "bulk.job" else topic

-- The user and the revision that go into the events.
abbrev pub owner_of : Result Batch → String × String
owner_of (ok b) = (b.user_id, b.revision)
owner_of (err e) = ("", "")

module _ (env : Env) (s : Service) (hooks : Hooks) where
  -- The batch, if there is a repository and it can be read.
  pub read_batch : String → Action (Result Batch)
  read_batch k = if s.batch_repo then attempt (get_batch env k) else pure (err no_rows)

  -- The first test: no more than the approved count.
  pub check_approved : ℤ → Result Batch → Action (Unit {0})
  check_approved count (ok b) =
      if ltb_ℤ (pos 0) b.approved_count && ltb_ℤ b.approved_count count
      then raise (exceeds_approved count b.approved_count)
      else pure tt
  check_approved count (err e) = pure tt

  -- A batch that can be read gets the transaction ids; only after `blockFunc`.
  store_transactions : String → List String → Action (Unit {0})
  store_transactions k txs =
      if s.batch_repo
      then (do
        found ← attempt (get_batch env k)
        elim found [
          | ok b ↦ ignore (save_batch env (record b { billing_transaction_ids = txs }))
          | err e ↦ pure tt
        ])
      else pure tt

  abbrev keep_transactions : String → List String → Action (Unit {0})
  keep_transactions k [] = pure tt
  keep_transactions k (t ∷ ts) = store_transactions k (t ∷ ts)

  abbrev response_ids : Option (List String) → List String
  response_ids none = []
  response_ids (some txs) = txs

  -- The call to billing, with the transaction ids of its answer.
  pub reserve : String → ℤ → Action (List String)
  unfolding store_transactions transaction_ids
  reserve k count = elim hooks.block [
    | some hook ↦ (do
      reply ← hook
      let txs = transaction_ids reply
      keep_transactions k txs
      pure txs)
    | none ↦
        if s.billing
        then (do reply ← block_batch env "" count k; pure (response_ids reply))
        else pure []
  ]

  -- The transaction of one job is stored if it is a UUID.
  pub store_tx : Job → Option String → Progress → Action Progress
  store_tx j none p = pure p
  store_tx j (some t) p =
      if env.is_uuid t
      then (do
        ignore (update_billing_transaction_id env j.id (some t))
        pure (record p { assigned = p.assigned ++ t ∷ [] }))
      else pure p

  pub send_job : JobEvent → Action (Unit {0})
  send_job e = elim hooks.send [
    | some send ↦ send (topic_of s.job_topic) (job_event e)
    | none ↦ if s.producer then publish env (topic_of s.job_topic) (job_event e) else pure tt
  ]

  -- What follows the answer of Kafka.
  pub mark_queued : Job → Progress → Result (Unit {0}) → Action Progress
  mark_queued j p (err e) = pure (record p { publish_error = true })
  mark_queued j p (ok _) = do
    done ← attempt (update_status env j.id JobStatus.queued)
    pure (elim done [ ok _ ↦ record p { queued = p.queued + 1 } | err e ↦ p ])

  -- One round of the loop.
  pub publish_job : List String → ℤ → String × String → ℕ → Progress → Job → Action Progress
  unfolding event_of
  publish_job txs count (user, revision) i p j = do
    let tx = assign_tx txs count i
    p' ← store_tx j tx p
    sent ← attempt (send_job (event_of user revision j tx))
    mark_queued j p' sent

  -- `for i, j := range jobs`, from index `i` on
  pub publish_jobs : List String → ℤ → String × String → ℕ → Progress → List Job → Action Progress
  publish_jobs txs count owner i p [] = pure p
  publish_jobs txs count owner i p (j ∷ js) =
      if not (ltb_ℤ (pos i) count)
      then pure p
      else (do p' ← publish_job txs count owner i p j; publish_jobs txs count owner (suc i) p' js)

  -- `for i := queued; i < len(jobs) && i < count; i++`
  pub refund_rest : ℤ → ℕ → List Job → Action (Unit {0})
  refund_rest count i [] = pure tt
  refund_rest count i (j ∷ js) =
      if not (ltb_ℤ (pos i) count)
      then pure tt
      else (do ignore (update_status env j.id JobStatus.refunded); refund_rest count (suc i) js)

  pub cancel_batch : String → Action (Unit {0})
  cancel_batch k =
      if s.batch_repo
      then (do
        found ← attempt (get_batch env k)
        elim found [
          | ok b ↦ ignore (save_batch env (record b { status = BatchStatus.cancelled }))
          | err e ↦ pure tt
        ])
      else pure tt

  abbrev pub refund_assigned : String → List String → Action (Unit {0})
  refund_assigned k [] = pure tt
  refund_assigned k (t ∷ ts) =
      if s.billing then ignore (refund_transactions env "" (t ∷ ts) k) else pure tt

  -- What follows a failed publication.
  pub roll_back : String → ℤ → List Job → Progress → Action (Unit {0})
  unfolding cancel_batch
  roll_back k count jobs p = do
    refund_assigned k p.assigned
    cancel_batch k
    refund_rest count p.queued (drop p.queued jobs)

  -- The part of `ConfirmBatch` after billing.
  pub publish_batch : String → ℤ → List String → Action ℕ
  publish_batch k count txs = if not s.job_repo then pure 0 else (do
    jobs ← get_jobs env k
    found ← read_batch k
    p ← publish_jobs txs count (owner_of found) 0 no_progress jobs
    if p.publish_error then roll_back k count jobs p else pure tt
    pure p.queued)

  -- `ConfirmBatch`
  pub confirm_batch : String → ℤ → Action ℕ
  confirm_batch k count = do
    found ← read_batch k
    check_approved count found
    txs ← reserve k count
    publish_batch k count txs
