-- ===== src/Redis/Options.antt =====
-- internal/platform/cache/redis.go: the options of a connection, and what OpenRedis makes of them.
use async_job_poc.Base.{ℕ, ◌*◌, ℤ, pos, not, length, ◌==◌, ltb_ℤ}
use async_job_poc.Text.{Text, bytes, trim_space}
use async_job_poc.Errors.{foreign, Result, ensure, ◌>>◌}
use async_job_poc.Mysql.Options.{is_out_of_range, join_host_port}
use async_job_poc.Time.{second}

pub record RedisOptions : Type 0 where
  pub host : Text
  pub port : ℤ
  pub password : Text
  pub db : ℤ

-- validateRedisOptions
unfoldable pub validate_redis_options : RedisOptions → Result (Unit {0})
validate_redis_options options = do
  ensure (not (length (trim_space options.host) == 0)) (foreign (bytes "Redis host is required"))
  ensure (not (is_out_of_range options.port))
      (foreign (bytes "Redis port must be between 1 and 65535"))
  ensure (not (ltb_ℤ options.db (pos 0))) (foreign (bytes "Redis DB must be zero or greater"))

abbrev pub redis_dial_timeout : ℕ
redis_dial_timeout = 5 * second

abbrev pub redis_read_timeout : ℕ
redis_read_timeout = 3 * second

abbrev pub redis_write_timeout : ℕ
redis_write_timeout = 3 * second

abbrev pub redis_pool_size : ℕ
redis_pool_size = 20

abbrev pub redis_min_idle_conns : ℕ
redis_min_idle_conns = 2

-- redis.Options; durations are numbers of nanoseconds.
pub record ClientOptions : Type 0 where
  pub addr : Text
  pub password : Text
  pub db : ℤ
  pub dial_timeout : ℕ
  pub read_timeout : ℕ
  pub write_timeout : ℕ
  pub pool_size : ℕ
  pub min_idle_conns : ℕ

-- What OpenRedis makes of the options, for the digits of a number in strconv.Itoa.
unfoldable pub client_options : (itoa : ℤ → Text) → RedisOptions → ClientOptions
client_options itoa options = record {
  addr = join_host_port options.host (itoa options.port);
  password = options.password;
  db = options.db;
  dial_timeout = redis_dial_timeout;
  read_timeout = redis_read_timeout;
  write_timeout = redis_write_timeout;
  pool_size = redis_pool_size;
  min_idle_conns = redis_min_idle_conns;
}
