-- ===== src/Startup.antt =====
-- cmd/worker/main.go and cmd/api/main.go: how the components are put together. What `run` returns
-- is the exit code; a log record is left out.
pub mod WorkerMain
pub mod ApiMain
pub mod Validated
pub mod Running
pub mod Programs
use async_job_poc.Base.{ℕ, true, Option, some, List}
use async_job_poc.Text.{Text, bytes}
use async_job_poc.Time.{Time}
use async_job_poc.Errors.{Result, ok, err}
use async_job_poc.UseCase.Action.{Action, lift, ◌>>=◌, ◌>>◌}
use async_job_poc.UseCase.Ports.{JobRepository}
use async_job_poc.UseCase.Observer.{Observer}
use async_job_poc.Config.{Config, Environment, load}
use async_job_poc.Logging.{Options, Logger, new_logger}
use async_job_poc.Mysql.Options.{MysqlOptions}
use async_job_poc.Mysql.Connection.{MysqlDriver, open_mysql, close_mysql}
use async_job_poc.Redis.{Client}
use async_job_poc.Redis.Options.{RedisOptions}
use async_job_poc.Redis.Connection.{RedisDriver, open_redis, close_redis}

-- What the two programs find outside: the environment and the parameters of Load, the drivers, the
-- repository and the Redis client over their connections, the clock, and the observer that logs.
pub record Platform (W : Type 0) : Type 0 where
  pub environment : Environment
  pub split_host_port : Text → Result Text
  pub visit : List (Text × Text) → List (Text × Text)
  pub mysql : MysqlDriver W
  pub redis : RedisDriver W
  pub repository : JobRepository W
  pub client : Client W
  pub now : W → Time × W
  pub status_persisted : Observer W

-- The options that `run` takes from the configuration.
abbrev pub mysql_options : Config → MysqlOptions
mysql_options cfg = record {
  host = cfg.mysql.host;
  port = cfg.mysql.port;
  database = cfg.mysql.database;
  user = cfg.mysql.user;
  password = cfg.mysql.password;
}

abbrev pub redis_options : Config → RedisOptions
redis_options cfg = record {
  host = cfg.redis.host;
  port = cfg.redis.port;
  password = cfg.redis.password;
  db = cfg.redis.db;
}

abbrev pub log_options : Text → Config → Options
log_options service cfg = record {
  level = cfg.log.level;
  environment = cfg.app.environment;
  service_name = service;
}

abbrev pub exit_code : Result (Unit {0}) → ℕ
exit_code (ok _) = 0
exit_code (err _) = 1

module _ {W : Type 0} where
  -- `defer` of a Close, whose error is only logged.
  abbrev pub closing : {A : Type 0} → Action W (Unit {0}) → Action W A → Action W A
  closing close body w = ((body w).0, (close (body w).1).1)

  abbrev pub loaded : Platform W → Result Config
  loaded p = load p.split_host_port p.visit p.environment

  -- The first part of `run`, the same in both programs but for the name of the service: `serve` is
  -- the rest, once both connections are there.
  unfoldable pub connected :
      Platform W → (service : Text) → (Config → Action W (Unit {0})) → Action W (Unit {0})
  connected p service serve = do
    cfg ← lift (loaded p)
    logger ← lift (new_logger true (log_options service cfg))
    open_mysql p.mysql (mysql_options cfg)
    closing (close_mysql p.mysql (some tt)) (do
      open_redis p.redis (redis_options cfg)
      closing (close_redis p.redis (some tt)) (serve cfg))
