-- ===== src/Config/Loading.antt =====
-- What Load returns.
use mathlib.Core.Path.{subst}
use mathlib.Core.List.{Permᴰ}
use mathlib.Core.List.Permᴰ.{symm}
use async_job_poc.Base.{◌≡◌, ap, ◌∙◌, arith, ◌↔◌, none, List, [], All, inl, inr, Option-cases}
use async_job_poc.Text.{Text, to_lower}
use async_job_poc.Errors.{Result, ok, Result-cases}
use async_job_poc.Config.{
  Config, Environment, is_supported_environment, is_supported_log_level, missing_values,
  required_values, validation_errors, validate, read, load, environments, levels,
}
use async_job_poc.Config.Reading.{IsReadFrom, read_iff}
use async_job_poc.Config.Valid.{
  IsValid, HasValue, is_blank-false, validate_port_iff, is_one_of_iff, validate_http_address_iff,
  IsPort, IsNatural, IsGiven, IsAddress, IsEnvironment, IsLevel, append_iff, error_of_iff,
  error_if_iff, error_unless_iff, join_all_iff, missing_values-empty, All-perm, is_negative_iff,
}

module _ (split_host_port : Text → Result Text) (visit : List (Text × Text) → List (Text × Text))
    (visits : (values : List (Text × Text)) → Permᴰ (visit values) values) where
  required :
      (cfg : Config)
      → (missing_values (visit (required_values cfg)) ≡ []) ↔ All HasValue (required_values cfg)
  required cfg =
      let (found, to_found) = missing_values-empty (visit (required_values cfg)) in
      let order = visits (required_values cfg) in
      (λ h. All-perm HasValue order (found h), λ h. to_found (All-perm HasValue (symm order) h))

  validation_errors-empty :
      (cfg : Config)
      → (validation_errors split_host_port visit cfg ≡ []) ↔ (
          All HasValue (required_values cfg)
          × (IsPort cfg.mysql.port
              × (IsPort cfg.redis.port
                  × (IsNatural cfg.redis.db
                      × (IsGiven cfg.redis.queue_name
                          × (IsAddress split_host_port cfg.http.address
                              × (IsGiven cfg.ui.assets_directory
                                  × (IsEnvironment cfg.app.environment
                                      × IsLevel cfg.log.level))))))))
  unfolding validation_errors is_supported_environment is_supported_log_level
  validation_errors-empty cfg = append_iff (required cfg) (
      append_iff (error_of_iff (validate_port_iff "MYSQL_PORT" cfg.mysql.port)) (
        append_iff (error_of_iff (validate_port_iff "REDIS_PORT" cfg.redis.port)) (
          append_iff
            (error_if_iff "REDIS_DB must be zero or greater" (is_negative_iff cfg.redis.db))
            (append_iff
              (error_if_iff "REDIS_QUEUE_NAME is required" (is_blank-false cfg.redis.queue_name))
              (append_iff
                (error_of_iff (validate_http_address_iff split_host_port cfg.http.address))
                (append_iff
                  (error_if_iff "UI_ASSETS_DIR is required"
                    (is_blank-false cfg.ui.assets_directory))
                  (append_iff
                    (error_unless_iff
                      "APP_ENV must be one of development, test, staging, or production"
                      (is_one_of_iff (to_lower cfg.app.environment) environments))
                    (error_unless_iff "LOG_LEVEL must be one of debug, info, warn, or error"
                      (is_one_of_iff (to_lower cfg.log.level) levels)))))))))

  validate_iff :
      (cfg : Config) → (validate split_host_port visit cfg ≡ none) ↔ IsValid split_host_port cfg
  unfolding validate
  validate_iff cfg =
      let (to_parts, of_parts) = validation_errors-empty cfg in
      let (joined, to_joined) = join_all_iff (validation_errors split_host_port visit cfg) in
      (
        λ h.
            let (
              values,
              (mysql_port, (redis_port, (db, (queue, (address, (assets, (environment, level))))))),
            ) =
              to_parts (joined h) in
            let (mysql_host, (database, (user, (password, (redis_host, _))))) = values in
            record {
              mysql_host = mysql_host;
              mysql_database = database;
              mysql_user = user;
              mysql_password = password;
              redis_host = redis_host;
              mysql_port = mysql_port;
              redis_port = redis_port;
              redis_db = db;
              queue_name = queue;
              address = address;
              assets_directory = assets;
              environment = environment;
              level = level;
            },
        λ v. to_joined (
            of_parts (
              (
                v.mysql_host,
                (v.mysql_database, (v.mysql_user, (v.mysql_password, (v.redis_host, tt)))),
              ),
              (
                v.mysql_port,
                (
                  v.redis_port,
                  (
                    v.redis_db,
                    (v.queue_name, (v.address, (v.assets_directory, (v.environment, v.level)))),
                  ),
                ),
              ),
            )),
      )

  -- If the required values are visited in any order, Load returns a configuration if and only if each
  -- of its values is that of its own variable of the environment, and it is valid. The hosts,
  -- the MySQL database, the user and the passwords stand as they are given, or are empty; any other
  -- value is trimmed, and is a default if the variable is unset or white space; the two ports and the database
  -- of Redis are decimal integers. Valid means: the required values, the name of the queue and the
  -- directory of the UI are given, the ports are from 1 to 65535, that of the HTTP address included,
  -- the database of Redis is not negative, and the environment and the log level are among those
  -- that the messages list.
  pub load_iff :
      (env : Environment) (cfg : Config)
      → (load split_host_port visit env ≡ ok cfg)
        ↔ (IsReadFrom env cfg × IsValid split_host_port cfg)
  unfolding load
  load_iff env cfg =
      let (fields, of_fields) = read_iff split_host_port visit env cfg in
      (
        λ h. elim (Result-cases (read split_host_port visit env)) [
          | inr (e, k) ↦ absurd (ground arith)
          | inl (c, k) ↦ elim (Option-cases (validate split_host_port visit c)) [
            | inr (e, n) ↦ absurd (ground arith)
            | inl n ↦
                let same : c ≡ cfg = ground arith in
                (
                  fields (k ∙ ap ok same),
                  subst (IsValid split_host_port) same ((validate_iff c).0 n),
                )
          ]
        ],
        λ h. let valid = (validate_iff cfg).1 h.1 in let reads = of_fields h.0 in ground arith,
      )
