-- ===== src/Startup/Running.antt =====
-- What the two programs do, from the environment to the exit code.
use async_job_poc.Base.{ℕ, ◌≡◌, inl, inr, some, List, arith}
use async_job_poc.Text.{Text}
use async_job_poc.Errors.{Result, ok, Fails, Result-cases}
use async_job_poc.UseCase.Action.{Action}
use mathlib.Core.List.{Permᴰ}
use async_job_poc.Config.{Config}
use async_job_poc.Config.Valid.{IsValid}
use async_job_poc.Config.Reading.{read_iff}
use async_job_poc.Config.Loading.{load_iff}
use async_job_poc.Mysql.Connection.{connect_mysql, close_mysql, open_mysql}
use async_job_poc.Redis.Connection.{connect_redis, close_redis, open_redis}
use async_job_poc.Startup.{Platform, mysql_options, redis_options, exit_code, loaded, connected}
use async_job_poc.Startup.Validated.{valid-mysql_options, valid-redis_options, valid-logger}

module _ {W : Type 0} (p : Platform W) (serve : Config → Action W (Unit {0})) (w : W) where
  -- The world once MySQL, and then Redis, was called.
  abbrev pub after_mysql : Config → W
  after_mysql cfg = (connect_mysql p.mysql (mysql_options cfg) w).1

  abbrev pub after_redis : Config → W
  after_redis cfg = (connect_redis p.redis (redis_options cfg) (after_mysql cfg)).1

  abbrev pub close_both : W → W
  close_both w' = (close_mysql p.mysql (some tt) (close_redis p.redis (some tt) w').1).1

  -- An exit code and the world that is left, with the configuration `cfg`: one of the connections
  -- fails, and what is open is closed; or `serve` runs, and both connections are closed.
  pub data IsSession (cfg : Config) (r : ℕ × W) : Type 0 where
    no_mysql :
        Fails (connect_mysql p.mysql (mysql_options cfg) w).0
        → r ≡ (1, after_mysql cfg)
        → IsSession cfg r
    no_redis :
        (connect_mysql p.mysql (mysql_options cfg) w).0 ≡ ok tt
        → Fails (connect_redis p.redis (redis_options cfg) (after_mysql cfg)).0
        → r ≡ (1, (close_mysql p.mysql (some tt) (after_redis cfg)).1)
        → IsSession cfg r
    served :
        (connect_mysql p.mysql (mysql_options cfg) w).0 ≡ ok tt
        → (connect_redis p.redis (redis_options cfg) (after_mysql cfg)).0 ≡ ok tt
        → r
          ≡ (exit_code (serve cfg (after_redis cfg)).0, close_both (serve cfg (after_redis cfg)).1)
        → IsSession cfg r

  -- The whole run: without a configuration, the exit code is 1 and nothing was called.
  pub data IsRun (r : ℕ × W) : Type 0 where
    no_configuration : Fails (loaded p) → r ≡ (1, w) → IsRun r
    configured : (cfg : Config) → loaded p ≡ ok cfg → IsSession cfg r → IsRun r

-- A program whose last part does what `serve` does, for a configuration that is valid.
module _ {W : Type 0} (p : Platform W)
    (visits : (values : List (Text × Text)) → Permᴰ (p.visit values) values) (service : Text)
    (last serve : Config → Action W (Unit {0}))
    (same : (cfg : Config) (w : W) → IsValid p.split_host_port cfg → last cfg w ≡ serve cfg w)
    (w : W) where
  abbrev run : Result (Unit {0}) × W
  run = connected p service last w

  pub connected-IsRun : IsRun p serve w (exit_code run.0, run.1)
  unfolding connected open_mysql open_redis
  connected-IsRun = elim (Result-cases (loaded p)) [
    | inr (e, l) ↦ no_configuration (e, l) (ground arith)
    | inl (cfg, l) ↦
        let (reads, valid) = (load_iff p.split_host_port p.visit visits p.environment cfg).0 l in
        let (logger, g) =
          valid-logger p.split_host_port p.visit p.environment service
            ((read_iff p.split_host_port p.visit p.environment cfg).1 reads) valid in
        let m = valid-mysql_options valid in
        let d = valid-redis_options valid in
        configured cfg l (elim (Result-cases (connect_mysql p.mysql (mysql_options cfg) w).0) [
          | inr (e, c) ↦ no_mysql (e, c) (ground arith)
          | inl (_, c) ↦
              elim (Result-cases
                (connect_redis p.redis (redis_options cfg) (after_mysql p serve w cfg)).0) [
                  | inr (e, k) ↦ no_redis c (e, k) (ground arith)
                  | inl (_, k) ↦
                      let served_same = same cfg (after_redis p serve w cfg) valid in
                      served c k (ground arith)
                ]
        ])
  ]
