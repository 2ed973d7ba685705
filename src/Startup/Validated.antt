-- ===== src/Startup/Validated.antt =====
-- What a configuration that Load returns is good for.
use async_job_poc.Base.{
  ◌≡◌, refl, inl, inr, pos, negsuc, ℤ, true, false, Option, none, some, List, [], ◌∷◌, length, ◌==◌,
  arith, Bool-cases,
}
use async_job_poc.Text.{Text, bytes, trim_space, text_eq}
use async_job_poc.Text.Trim.{trim_space-trim_space, trim_space-Visible}
use async_job_poc.Errors.{Result, ok, Result-cases}
use async_job_poc.Config.{Config, Environment, is_blank, value_or_default, or_default, read}
use async_job_poc.Config.Valid.{IsGiven, IsPort, IsLevel, IsValid, is_blank-false, is_negative_iff}
use async_job_poc.Logging.{Logger, Level, debug, info, warn, error, parse_level, new_logger}
use async_job_poc.Mysql.Options.{is_out_of_range, validate_mysql_options}
use async_job_poc.Redis.{new_job_queue}
use async_job_poc.Redis.Options.{validate_redis_options}
use async_job_poc.Startup.{mysql_options, redis_options, log_options}

not_empty : (s : Text) → IsGiven s → (length s == 0) ≡ false
unfolding trim_space
not_empty [] g = absurd (g refl)
not_empty (c ∷ s) g = ground arith

in_range : (port : ℤ) → IsPort port → is_out_of_range port ≡ false
in_range (pos n) h = ground arith
in_range (negsuc n) h = absurd h

module _ {split_host_port : Text → Result Text} {cfg : Config}
    (v : IsValid split_host_port cfg) where
  pub valid-mysql_options : validate_mysql_options (mysql_options cfg) ≡ ok tt
  unfolding validate_mysql_options
  valid-mysql_options = ground (
    arith,
    not_empty cfg.mysql.host v.mysql_host,
    in_range cfg.mysql.port v.mysql_port,
    not_empty cfg.mysql.database v.mysql_database,
    not_empty cfg.mysql.user v.mysql_user,
    not_empty cfg.mysql.password v.mysql_password,
  )

  pub valid-redis_options : validate_redis_options (redis_options cfg) ≡ ok tt
  unfolding validate_redis_options
  valid-redis_options = ground (
    arith,
    (is_blank-false cfg.redis.host).1 v.redis_host,
    in_range cfg.redis.port v.redis_port,
    (is_negative_iff cfg.redis.db).1 v.redis_db,
  )

  pub valid-queue_name :
      new_job_queue true cfg.redis.queue_name ≡ ok (trim_space cfg.redis.queue_name)
  unfolding new_job_queue
  valid-queue_name = ground (arith, (is_blank-false cfg.redis.queue_name).1 v.queue_name)

-- A default, or a trimmed value, is trimmed.
or_default-trimmed :
    (o : Option Text) (default : Text)
    → trim_space default ≡ default
    → trim_space (or_default o default) ≡ or_default o default
or_default-trimmed none default h = h
or_default-trimmed (some value) default h = elim (Bool-cases (is_blank value)) [
  | inl b ↦ rw b h
  | inr b ↦ rw b (trim_space-trim_space value)
]

read-level :
    (split_host_port : Text → Result Text) (visit : List (Text × Text) → List (Text × Text))
    (env : Environment) {cfg : Config}
    → read split_host_port visit env ≡ ok cfg
    → cfg.log.level ≡ value_or_default env "LOG_LEVEL" "info"
unfolding read
read-level split_host_port visit env h = ground arith

parse_level-ok :
    (level : Text)
    → trim_space level ≡ level
    → IsLevel level
    → (l : Level) × (parse_level level ≡ ok l)
unfolding parse_level text_eq
parse_level-ok level t h = elim h [
  | inl e ↦ (debug, rw (t, e) refl)
  | inr (inl e) ↦ (info, rw (t, e) refl)
  | inr (inr (inl e)) ↦ (warn, rw (t, e) refl)
  | inr (inr (inr (inl e))) ↦ (error, rw (t, e) refl)
  | inr (inr (inr (inr none_left))) ↦ absurd none_left
]

pub valid-logger :
    (split_host_port : Text → Result Text) (visit : List (Text × Text) → List (Text × Text))
    (env : Environment) (service : Text) {cfg : Config}
    → read split_host_port visit env ≡ ok cfg
    → IsValid split_host_port cfg
    → (l : Logger) × (new_logger true (log_options service cfg) ≡ ok l)
unfolding new_logger value_or_default
valid-logger split_host_port visit env service {cfg} r v =
    let from = read-level split_host_port visit env r in
    let trimmed = or_default-trimmed (env (bytes "LOG_LEVEL")) (bytes "info") info_trimmed in
    let (l, e) = parse_level-ok cfg.log.level (rw from trimmed) v.level in
    elim (Result-cases (new_logger true (log_options service cfg))) [
      | inl success ↦ success
      | inr (x, fails) ↦ absurd (ground arith)
    ]
  where
    info_trimmed : trim_space (bytes "info") ≡ bytes "info"
    info_trimmed = trim_space-Visible (bytes "info") (omega arith)
