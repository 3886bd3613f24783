-- ===== src/Wiring.antt =====
-- internal/di/di.go: which parts the service is made of. Whether the database and the file storage can be
-- reached is a parameter. Logging and the statistics of the database are left out.
pub mod Silent
use bulk.Base.{[], String, Bool, true, false, not, Option, none, some, if◌then◌else◌, str_eq}
use bulk.Base.Int.{ℤ, pos}
use bulk.Domain.{Fields}
use bulk.World.{Env}
use bulk.Config.{Environ, Config}
use bulk.Confirm.{Service}
use bulk.Exporter.{Manager}
use bulk.Handlers.Reply.{Deps}
use bulk.Manager.{BatchManager}
use bulk.Results.{ResultHandler, ResultConsumer, handle_result}

-- What the outside answers at the start: the connection to the database, and the client of the storage
-- that is made from the environment.
pub record Outlook : Type 0 where
  pub connects : Bool
  pub storage_client : Bool

-- `kafka.NewConsumer`: the topic that is read, the group, and what is done with each message.
pub record Subscription : Type 0 where
  pub topic : String
  pub group_id : String
  pub consumer : ResultConsumer

-- `di.Deps`, beside the parts that the handlers test for: the database, the repository of validation
-- errors, the storage, the consumer and the exporter.
pub record Parts : Type 0 where
  pub deps : Deps
  pub database : Bool
  pub validation_repo : Bool
  pub storage : Bool
  pub subscription : Option Subscription
  pub exporter : Manager

-- A variable of the environment, or the default where it is empty.
or_default : Environ → String → String → String
or_default e name default = if str_eq (e.getenv name) "" then default else e.getenv name

-- `KAFKA_CONSUMER_RETRY`
consumer_retry : Environ → ℤ
consumer_retry e =
    if str_eq (e.getenv "KAFKA_CONSUMER_RETRY") ""
    then pos 3
    else elim (e.atoi (e.getenv "KAFKA_CONSUMER_RETRY")) [ none ↦ pos 3 | some n ↦ n ]

-- The repositories are there also without a database.
unfoldable pub wired_manager : Environ → Config → BatchManager
unfolding or_default
wired_manager e c = record {
  batch_repo = true;
  job_repo = true;
  billing = true;
  history = true;
  producer = true;
  bulk_status_topic = c.kafka.bulk_status_topic;
  history_topic = or_default e "KAFKA_TOPIC_TRANS_HISTORY" "trans-history.log";
}

-- `buildResultHandler` of the wired parts
wired_handler : Environ → Config → ResultHandler
unfolding wired_manager or_default
wired_handler e c = record {
  job_repo = true;
  history = true;
  history_topic = or_default e "KAFKA_TOPIC_TRANS_HISTORY" "trans-history.log";
  notifier = some (wired_manager e c);
}

module _ (env : Env) (to_json : Fields → String) (e : Environ) where
  subscription_of : Config → Option Subscription
  unfolding wired_handler consumer_retry or_default
  subscription_of c =
      if str_eq c.kafka.brokers ""
      then none
      else some (record {
        topic = c.kafka.bulk_result_topic;
        group_id = c.kafka.consumer_group;
        consumer = record {
          handler = some (handle_result env to_json (wired_handler e c));
          producer = true;
          dlq_topic = or_default e "KAFKA_DLQ_TOPIC" "bulk.result.dlq";
          retry_count = consumer_retry e;
        };
      })

  -- `NewDeps`; none where the database can not be connected.
  unfoldable pub new_deps : Outlook → Config → Option Parts
  unfolding subscription_of wired_manager
  new_deps o c =
      let database = not (str_eq c.database.url "") in
      let parts : Parts = record {
        deps = record {
          batch_repo = true;
          job_repo = true;
          batch_manager = some (wired_manager e c);
          service = some (record {
            batch_repo = true;
            job_repo = true;
            billing = true;
            producer = true;
            job_topic = e.getenv "KAFKA_TOPIC_BULK_JOB";
          });
          billing = true;
          producer = true;
          job_topic = e.getenv "KAFKA_TOPIC_BULK_JOB";
        };
        database = database;
        validation_repo = database;
        storage = if str_eq (e.getenv "STORAGE_ENDPOINT") "" then false else o.storage_client;
        subscription = subscription_of c;
        exporter = record { queue = []; capacity = 10; results = []; current = none };
      } in
      if database then (if o.connects then some parts else none) else some parts
