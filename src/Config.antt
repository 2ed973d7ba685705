-- ===== src/Config.antt =====
-- internal/platform/config/config.go. The environment is a function: what LookupEnv gives for a
-- name. net.SplitHostPort, and the order in which a range over a map visits its entries, are
-- parameters.
pub mod Atoi
pub mod Valid
pub mod Reading
pub mod Loading
use async_job_poc.Base.{
  ℤ, pos, negsuc, Bool, true, false, ◌&&◌, ◌||◌, not, ltb_ℤ, String, Option, none, some, List, [],
  ◌∷◌, ◌++◌, length, ◌==◌, if◌then◌else◌,
}
use async_job_poc.Text.{Text, bytes, trim_space, to_lower, text_eq}
use async_job_poc.Errors.{Error, foreign, join, text, Result, ok, err, wrapped, ◌>>=◌}
use Atoi.{atoi}

pub record AppConfig : Type 0 where
  pub environment : Text

pub record HttpConfig : Type 0 where
  pub address : Text

pub record UiConfig : Type 0 where
  pub assets_directory : Text

pub record MysqlConfig : Type 0 where
  pub host : Text
  pub port : ℤ
  pub database : Text
  pub user : Text
  pub password : Text

pub record RedisConfig : Type 0 where
  pub host : Text
  pub port : ℤ
  pub password : Text
  pub db : ℤ
  pub queue_name : Text

pub record LogConfig : Type 0 where
  pub level : Text

pub record Config : Type 0 where
  pub app : AppConfig
  pub http : HttpConfig
  pub ui : UiConfig
  pub mysql : MysqlConfig
  pub redis : RedisConfig
  pub log : LogConfig

abbrev pub Environment : Type 0
Environment = Text → Option Text

-- os.Getenv
abbrev pub getenv : Environment → String → Text
getenv env name = elim (env (bytes name)) [ none ↦ [] | some value ↦ value ]

-- strings.TrimSpace(s) == ""
abbrev pub is_blank : Text → Bool
is_blank s = length (trim_space s) == 0

abbrev pub or_default : Option Text → Text → Text
or_default none default = default
or_default (some value) default = if is_blank value then default else trim_space value

-- valueOrDefault
unfoldable pub value_or_default : Environment → String → String → Text
value_or_default env name default = or_default (env (bytes name)) (bytes default)

abbrev pub int_or_default : String → Option Text → ℤ → Result ℤ
int_or_default name none default = ok default
int_or_default name (some raw_value) default =
    if is_blank raw_value
    then ok default
    else wrapped (text (bytes name) ∷ text (bytes " must be a valid integer: ") ∷ [])
        (atoi raw_value)

-- intFromEnvironment
unfoldable pub int_from_environment : Environment → String → ℤ → Result ℤ
int_from_environment env name default = int_or_default name (env (bytes name)) default

-- validatePort
unfoldable pub validate_port : String → ℤ → Result (Unit {0})
validate_port name port =
    if ltb_ℤ port (pos 1) || ltb_ℤ (pos 65535) port
    then err (foreign (bytes name ++ bytes " must be between 1 and 65535"))
    else ok tt

-- validateHTTPAddress, where `split_host_port` gives the port.
unfoldable pub validate_http_address :
    (split_host_port : Text → Result Text) → Text → Result (Unit {0})
validate_http_address split_host_port address = do
  port_value ←
      wrapped (text (bytes "HTTP_ADDRESS must have a host:port format such as :8080: ") ∷ [])
        (split_host_port address)
  port ← wrapped (text (bytes "HTTP_ADDRESS contains an invalid port: ") ∷ []) (atoi port_value)
  validate_port "HTTP_ADDRESS port" port

abbrev pub is_one_of : Text → List Text → Bool
is_one_of s [] = false
is_one_of s (t ∷ ts) = text_eq s t || is_one_of s ts

-- The cases of the two switches.
abbrev pub environments : List Text
environments = bytes "development" ∷ bytes "test" ∷ bytes "staging" ∷ bytes "production" ∷ []

abbrev pub levels : List Text
levels = bytes "debug" ∷ bytes "info" ∷ bytes "warn" ∷ bytes "error" ∷ []

-- isSupportedEnvironment and isSupportedLogLevel
unfoldable pub is_supported_environment : Text → Bool
is_supported_environment environment = is_one_of (to_lower environment) environments

unfoldable pub is_supported_log_level : Text → Bool
is_supported_log_level level = is_one_of (to_lower level) levels

-- The error of a check that was made, if there is one; and `if test { … append … }`.
abbrev pub error_of : Result (Unit {0}) → List Error
error_of (ok _) = []
error_of (err e) = e ∷ []

abbrev pub error_if : Bool → String → List Error
error_if test message = if test then foreign (bytes message) ∷ [] else []

-- The loop over requiredValues.
unfoldable pub missing_values : List (Text × Text) → List Error
missing_values [] = []
missing_values ((name, value) ∷ values) =
    (if is_blank value then foreign (name ++ bytes " is required") ∷ [] else [])
    ++ missing_values values

abbrev pub required_values : Config → List (Text × Text)
required_values cfg =
    (bytes "MYSQL_HOST", cfg.mysql.host)
    ∷ (bytes "MYSQL_DATABASE", cfg.mysql.database)
    ∷ (bytes "MYSQL_USER", cfg.mysql.user)
    ∷ (bytes "MYSQL_PASSWORD", cfg.mysql.password)
    ∷ (bytes "REDIS_HOST", cfg.redis.host)
    ∷ []

-- errors.Join: nil for no errors.
abbrev pub join_all : List Error → Option Error
join_all [] = none
join_all (e ∷ []) = some e
join_all (e ∷ f ∷ es) = elim (join_all (f ∷ es)) [ none ↦ some e | some g ↦ some (join e g) ]

module _ (split_host_port : Text → Result Text)
    (visit : List (Text × Text) → List (Text × Text)) where
  -- Config.Validate, the errors that it joins.
  unfoldable pub validation_errors : Config → List Error
  validation_errors cfg =
      missing_values (visit (required_values cfg))
      ++ (error_of (validate_port "MYSQL_PORT" cfg.mysql.port)
          ++ (error_of (validate_port "REDIS_PORT" cfg.redis.port)
              ++ (error_if (ltb_ℤ cfg.redis.db (pos 0)) "REDIS_DB must be zero or greater"
                  ++ (error_if (is_blank cfg.redis.queue_name) "REDIS_QUEUE_NAME is required"
                      ++ (error_of (validate_http_address split_host_port cfg.http.address)
                          ++ (error_if (is_blank cfg.ui.assets_directory)
                                "UI_ASSETS_DIR is required"
                              ++ (error_if (not (is_supported_environment cfg.app.environment))
                                    "APP_ENV must be one of development, test, staging, or production"
                                  ++ (error_if (not (is_supported_log_level cfg.log.level))
                                      "LOG_LEVEL must be one of debug, info, warn, or error"))))))))

  -- Config.Validate
  unfoldable pub validate : Config → Option Error
  validate cfg = join_all (validation_errors cfg)

  -- The configuration that Load reads, before it is validated.
  unfoldable pub read : Environment → Result Config
  read env = do
    mysql_port ← int_from_environment env "MYSQL_PORT" (pos 3306)
    redis_port ← int_from_environment env "REDIS_PORT" (pos 6379)
    redis_db ← int_from_environment env "REDIS_DB" (pos 0)
    ok (record {
      app = record { environment = value_or_default env "APP_ENV" "development" };
      http = record { address = value_or_default env "HTTP_ADDRESS" ":8080" };
      ui = record { assets_directory = value_or_default env "UI_ASSETS_DIR" "web/dist" };
      mysql = record {
        host = getenv env "MYSQL_HOST";
        port = mysql_port;
        database = getenv env "MYSQL_DATABASE";
        user = getenv env "MYSQL_USER";
        password = getenv env "MYSQL_PASSWORD";
      };
      redis = record {
        host = getenv env "REDIS_HOST";
        port = redis_port;
        password = getenv env "REDIS_PASSWORD";
        db = redis_db;
        queue_name = value_or_default env "REDIS_QUEUE_NAME" "jobs:pending";
      };
      log = record { level = value_or_default env "LOG_LEVEL" "info" };
    })

  -- Load
  unfoldable pub load : Environment → Result Config
  load env = do
    cfg ← read env
    elim (validate cfg) [
      | none ↦ ok cfg
      | some e ↦ wrapped (text (bytes "validate configuration: ") ∷ []) (err e)
    ]
