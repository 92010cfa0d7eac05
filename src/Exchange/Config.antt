-- ===== src/Exchange/Config.antt =====
-- internal/config/config.go of the exchange-rate service: the configuration from the environment.
-- The parsers of `strconv` are parameters.
use movra.Prelude.{String, Bool, true, ◌||◌, if◌then◌else◌, ◌==◌, Option, none, some}
use movra.Prelude.Int.{ℤ, pos}
use movra.Prelude.Action.{Result, ok, err}
use movra.Platform.Float.{Floats}

pub record Config (F : Type 0) : Type 0 where
  pub http_port : ℤ
  pub grpc_port : ℤ
  pub redis_addr : String
  pub redis_pass : String
  pub redis_db : ℤ
  pub jaeger_url : String
  pub metrics_enabled : Bool
  pub metrics_endpoint : String
  pub environment : String
  pub log_level : String
  pub rate_cache_ttl : ℤ
  pub lock_duration : ℤ
  pub max_lock_duration : ℤ
  pub provider_type : String
  pub provider_spread : F
  pub provider_max_drift : F
  pub oxr_app_id : String
  pub oxr_api_url : String

-- The environment and two parsers of the standard library; a variable that is not set is empty.
pub record Environment : Type 0 where
  pub getenv : String → String
  pub atoi : String → Result ℤ
  pub parse_bool : String → Result Bool

abbrev or_default : {A : Type 0} → Result A → A → A
or_default (ok a) d = a
or_default (err e) d = d

module _ {F : Type 0} (fl : Floats F) (env : Environment) where
  unfoldable pub get_env : String → String → String
  get_env key default = if env.getenv key == "" then default else env.getenv key

  unfoldable pub get_env_int : String → ℤ → ℤ
  get_env_int key default =
      if env.getenv key == "" then default else or_default (env.atoi (env.getenv key)) default

  abbrev parsed_or : F × Option String → F → F
  parsed_or (x, none) default = x
  parsed_or (x, some e) default = default

  unfoldable pub get_env_float : String → F → F
  get_env_float key default =
      if env.getenv key == "" then default else parsed_or (fl.parse_float (env.getenv key)) default

  unfoldable pub get_env_bool : String → Bool → Bool
  get_env_bool key default =
      if env.getenv key == "" then default else or_default (env.parse_bool (env.getenv key)) default

  unfoldable pub load : Config F
  unfolding get_env get_env_int get_env_float get_env_bool
  load = record {
    http_port = get_env_int "HTTP_PORT" (pos 8082);
    grpc_port = get_env_int "GRPC_PORT" (pos 9092);
    redis_addr = get_env "REDIS_ADDR" "localhost:6379";
    redis_pass = get_env "REDIS_PASSWORD" "";
    redis_db = get_env_int "REDIS_DB" (pos 0);
    jaeger_url = get_env "JAEGER_URL" "http://localhost:14268/api/traces";
    metrics_enabled = get_env_bool "METRICS_ENABLED" true;
    metrics_endpoint = get_env "METRICS_ENDPOINT" "/metrics";
    environment = get_env "ENVIRONMENT" "development";
    log_level = get_env "LOG_LEVEL" "info";
    rate_cache_ttl = get_env_int "RATE_CACHE_TTL" (pos 60);
    lock_duration = get_env_int "LOCK_DURATION" (pos 30);
    max_lock_duration = get_env_int "MAX_LOCK_DURATION" (pos 120);
    provider_type = get_env "PROVIDER_TYPE" "simulated";
    provider_spread = get_env_float "PROVIDER_SPREAD" (fl.literal 5 3);
    provider_max_drift = get_env_float "PROVIDER_MAX_DRIFT" (fl.literal 2 2);
    oxr_app_id = get_env "OXR_APP_ID" "";
    oxr_api_url = get_env "OXR_API_URL" "https://openexchangerates.org/api";
  }

module _ {F : Type 0} (c : Config F) where
  abbrev pub is_development : Bool
  is_development = (c.environment == "development") || (c.environment == "dev")

  abbrev pub is_production : Bool
  is_production = (c.environment == "production") || (c.environment == "prod")
