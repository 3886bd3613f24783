-- ===== src/Config.antt =====
-- internal/config/config.go: what the service reads from its environment.
use bulk.Base.{String, Option, none, some, if◌then◌else◌, str_eq}
use bulk.Base.Int.{ℤ, pos}

-- `os.Getenv`, `strconv.Atoi` and `time.ParseDuration`; a duration is a number of nanoseconds.
pub record Environ : Type 0 where
  pub getenv : String → String
  pub atoi : String → Option ℤ
  pub parse_duration : String → Option ℤ

pub record ServerConfig : Type 0 where
  pub port : ℤ
  pub host : String
  pub read_timeout : ℤ
  pub write_timeout : ℤ

pub record BffConfig : Type 0 where
  pub url : String
  pub timeout : ℤ
  pub retry_attempts : ℤ
  pub service_token : String

pub record KafkaConfig : Type 0 where
  pub brokers : String
  pub bulk_job_topic : String
  pub bulk_result_topic : String
  pub bulk_status_topic : String
  pub consumer_group : String

pub record DatabaseConfig : Type 0 where
  pub url : String
  pub stats_interval : ℤ
  pub max_open_conns : ℤ
  pub max_idle_conns : ℤ

pub record LimitsConfig : Type 0 where
  pub max_file_size_mb : ℤ
  pub max_rows_per_batch : ℤ
  pub max_concurrent_batches : ℤ
  pub max_batches_per_hour : ℤ

-- `Config`, whose parts for the service, the log and Redis are single fields here.
pub record Config : Type 0 where
  pub server : ServerConfig
  pub service_name : String
  pub service_version : String
  pub log_level : String
  pub log_format : String
  pub bff : BffConfig
  pub kafka : KafkaConfig
  pub database : DatabaseConfig
  pub redis_url : String
  pub redis_pool_size : ℤ
  pub limits : LimitsConfig

module _ (e : Environ) where
  -- A variable, or the default where it is empty.
  text_or : String → String → String
  text_or default name = if str_eq (e.getenv name) "" then default else e.getenv name

  -- A number, or the default where the variable is empty or no number.
  number_or : ℤ → String → ℤ
  number_or default name =
      if str_eq (e.getenv name) ""
      then default
      else elim (e.atoi (e.getenv name)) [ none ↦ default | some n ↦ n ]

  -- A number, 0 where the variable is no number, and `unset` where it is empty.
  number_or_zero : ℤ → String → ℤ
  number_or_zero unset name =
      if str_eq (e.getenv name) ""
      then unset
      else elim (e.atoi (e.getenv name)) [ none ↦ pos 0 | some n ↦ n ]

  duration_or : ℤ → String → ℤ
  duration_or default name =
      if str_eq (e.getenv name) ""
      then default
      else elim (e.parse_duration (e.getenv name)) [ none ↦ default | some d ↦ d ]

  -- `LoadConfigFromEnv`
  unfoldable pub load_config_from_env : Config
  unfolding text_or number_or number_or_zero duration_or
  load_config_from_env = record {
    server = record {
      port = number_or_zero (pos 8080) "SERVER_PORT";
      host = text_or "0.0.0.0" "SERVER_HOST";
      read_timeout = duration_or (pos 30000000000) "SERVER_READ_TIMEOUT";
      write_timeout = duration_or (pos 60000000000) "SERVER_WRITE_TIMEOUT";
    };
    service_name = text_or "bulk-service" "SERVICE_NAME";
    service_version = text_or "unknown" "SERVICE_VERSION";
    log_level = text_or "info" "LOG_LEVEL";
    log_format = text_or "json" "LOG_FORMAT";
    bff = record {
      url = e.getenv "BFF_URL";
      timeout = duration_or (pos 30000000000) "BFF_TIMEOUT";
      retry_attempts = number_or (pos 3) "BFF_RETRY_ATTEMPTS";
      service_token = e.getenv "BFF_SERVICE_TOKEN";
    };
    kafka = record {
      brokers = e.getenv "KAFKA_BROKERS";
      bulk_job_topic = "";
      bulk_result_topic = "";
      bulk_status_topic = "";
      consumer_group = "";
    };
    database = record {
      url = e.getenv "DATABASE_URL";
      stats_interval = duration_or (pos 10000000000) "DB_STATS_INTERVAL";
      max_open_conns = number_or (pos 25) "DATABASE_MAX_OPEN_CONNS";
      max_idle_conns = number_or (pos 5) "DATABASE_MAX_IDLE_CONNS";
    };
    redis_url = text_or "redis://redis:6379/0" "REDIS_URL";
    redis_pool_size = number_or (pos 10) "REDIS_POOL_SIZE";
    limits = record {
      max_file_size_mb = number_or_zero (pos 0) "MAX_FILE_SIZE_MB";
      max_rows_per_batch = pos 0;
      max_concurrent_batches = pos 0;
      max_batches_per_hour = number_or_zero (pos 10) "MAX_BATCHES_PER_HOUR";
    };
  }
