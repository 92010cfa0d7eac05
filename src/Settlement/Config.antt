-- ===== src/Settlement/Config.antt =====
-- internal/config/config.go: the configuration from the environment. `strconv.Atoi` and
-- `time.ParseDuration` are parameters.
use movra.Prelude.{String, ◌*◌, if◌then◌else◌, ◌==◌}
use movra.Prelude.Int.{ℤ, pos}
use movra.Prelude.Action.{Result, ok, err}
use movra.Platform.Time.{second}

pub record Config : Type 0 where
  pub http_port : String
  pub grpc_port : String
  pub redis_addr : String
  pub redis_password : String
  pub redis_db : ℤ
  pub kafka_brokers : String
  pub kafka_consumer_group : String
  pub kafka_topic_funded : String
  pub kafka_topic_status : String
  pub provider_type : String
  pub provider_failure_rate : ℤ
  pub provider_processing_time : ℤ
  pub max_retries : ℤ
  pub retry_interval : ℤ

-- The environment and the parsers of the standard library; a variable that is not set is empty.
pub record Environment : Type 0 where
  pub getenv : String → String
  pub atoi : String → Result ℤ
  pub parse_duration : String → Result ℤ

abbrev or_default : Result ℤ → ℤ → ℤ
or_default (ok n) d = n
or_default (err e) d = d

module _ (env : Environment) where
  unfoldable pub get_env : String → String → String
  get_env key default = if env.getenv key == "" then default else env.getenv key

  unfoldable pub get_env_int : String → ℤ → ℤ
  get_env_int key default =
      if env.getenv key == "" then default else or_default (env.atoi (env.getenv key)) default

  unfoldable pub get_env_duration : String → ℤ → ℤ
  get_env_duration key default =
      if env.getenv key == ""
      then default
      else or_default (env.parse_duration (env.getenv key)) default

  unfoldable pub load : Config
  unfolding get_env get_env_int get_env_duration
  load = record {
    http_port = get_env "HTTP_PORT" "8083";
    grpc_port = get_env "GRPC_PORT" "9083";
    redis_addr = get_env "REDIS_ADDR" "localhost:6379";
    redis_password = get_env "REDIS_PASSWORD" "";
    redis_db = get_env_int "REDIS_DB" (pos 0);
    kafka_brokers = get_env "KAFKA_BROKERS" "localhost:9092";
    kafka_consumer_group = get_env "KAFKA_CONSUMER_GROUP" "settlement-service";
    kafka_topic_funded = get_env "KAFKA_TOPIC_FUNDED" "transfer.funded";
    kafka_topic_status = get_env "KAFKA_TOPIC_STATUS" "payout.status";
    provider_type = get_env "PROVIDER_TYPE" "simulated";
    provider_failure_rate = get_env_int "PROVIDER_FAILURE_RATE" (pos 10);
    provider_processing_time = get_env_duration "PROVIDER_PROCESSING_TIME" (pos (2 * second));
    max_retries = get_env_int "MAX_RETRIES" (pos 3);
    retry_interval = get_env_duration "RETRY_INTERVAL" (pos (5 * second));
  }
