-- ===== src/Redis/Connection.antt =====
-- internal/platform/cache/redis.go. The client of go-redis is a parameter. A connection is an
-- option: a *Redis that may be nil, or have no client.
use async_job_poc.Base.{ℤ, Option, none, some, [], ◌∷◌}
use async_job_poc.Text.{Text, bytes}
use async_job_poc.Errors.{foreign, text, ok, err}
use async_job_poc.UseCase.Action.{Action, pure, fail, call, or_fail, lift, prefix, ◌>>◌}
use async_job_poc.Redis.Options.{
  RedisOptions, validate_redis_options, ClientOptions, client_options,
}

pub record RedisDriver (W : Type 0) : Type 0 where
  -- strconv.Itoa
  pub itoa : ℤ → Text
  -- redis.NewClient
  pub new_client : ClientOptions → W → Unit {0} × W
  -- Ping and Close of the client
  pub ping : Action W (Unit {0})
  pub close : Action W (Unit {0})

module _ {W : Type 0} (driver : RedisDriver W) where
  -- A ping that fails closes the client.
  pub first_ping : (addr : Text) → Action W (Unit {0})
  first_ping addr w = elim (driver.ping w).0 [
    | ok _ ↦ (ok tt, (driver.ping w).1)
    | err e ↦ (
      err (prefix (text (bytes "ping Redis at ") ∷ text addr ∷ text (bytes ": ") ∷ []) e),
      (driver.close (driver.ping w).1).1,
    )
  ]

  -- OpenRedis after the options are validated.
  unfoldable pub connect_redis : RedisOptions → Action W (Unit {0})
  unfolding first_ping
  connect_redis options = do
    call (driver.new_client (client_options driver.itoa options))
    first_ping (client_options driver.itoa options).addr

  -- OpenRedis
  unfoldable pub open_redis : RedisOptions → Action W (Unit {0})
  open_redis options = do lift (validate_redis_options options); connect_redis options

  -- Redis.Ping
  unfoldable pub ping_redis : Option (Unit {0}) → Action W (Unit {0})
  ping_redis none = fail (foreign (bytes "Redis connection is not initialized"))
  ping_redis (some _) = or_fail (prefix (text (bytes "ping Redis: ") ∷ [])) driver.ping

  -- Redis.Close
  unfoldable pub close_redis : Option (Unit {0}) → Action W (Unit {0})
  close_redis none = pure tt
  close_redis (some _) =
      or_fail (prefix (text (bytes "close Redis connection: ") ∷ [])) driver.close
