-- ===== src/Logging.antt =====
-- internal/platform/logging: the logger as its level and its attributes, and the record that the
-- observer of the job lifecycle logs. The encoding of a record is not modelled.
use async_job_poc.Base.{
  ℤ, Bool, Option, none, some, List, [], ◌∷◌, ◌++◌, length, ◌==◌, if◌then◌else◌,
}
use async_job_poc.Text.{Text, bytes, trim_space, to_lower, text_eq}
use async_job_poc.Errors.{Error, foreign, Result, ok, err, ensure, ◌>>◌, ◌>>=◌}
use async_job_poc.Job.Entity.{Job}

-- slog.Level
pub data Level : Type 0 where
  debug info warn error : Level

pub record Options : Type 0 where
  pub level : Text
  pub environment : Text
  pub service_name : Text

pub data Value : Type 0 where
  string : Text → Value
  int : ℤ → Value
  any : Error → Value

abbrev pub Attributes : Type 0
Attributes = List (Text × Value)

-- What New gives to slog: the options of the handler, and the attributes of every record.
pub record Logger : Type 0 where
  pub level : Level
  pub add_source : Bool
  pub attributes : Attributes

-- parseLevel
unfoldable pub parse_level : Text → Result Level
parse_level value =
    let name = to_lower (trim_space value) in
    if text_eq name (bytes "debug")
    then ok debug
    else if text_eq name (bytes "info")
    then ok info
    else if text_eq name (bytes "warn")
    then ok warn
    else if text_eq name (bytes "error")
    then ok error
    else err (foreign (bytes "log level must be one of debug, info, warn, or error"))

abbrev service_or_default : Text → Text
service_or_default name = if length name == 0 then bytes "async-job-poc" else name

-- New, for whether the output is there.
unfoldable pub new_logger : Bool → Options → Result Logger
new_logger has_output options = do
  ensure has_output (foreign (bytes "log output must not be nil"))
  level ← parse_level options.level
  ok (record {
    level = level;
    add_source = text_eq options.environment (bytes "development");
    attributes =
        (bytes "service", string (service_or_default (trim_space options.service_name)))
        ∷ (bytes "environment", string options.environment)
        ∷ [];
  })

-- JobIDAttribute, ErrorAttribute and RequestIDAttribute
abbrev pub job_id_attribute : Text → Text × Value
job_id_attribute id = (bytes "job_id", string id)

abbrev pub error_attribute : Error → Text × Value
error_attribute e = (bytes "error", any e)

abbrev pub request_id_attribute : Text → Text × Value
request_id_attribute id = (bytes "request_id", string id)

-- JobAttributes
unfoldable pub job_attributes : Option Job → Attributes
job_attributes none = []
job_attributes (some entity) =
    job_id_attribute entity.id
    ∷ (bytes "job_type", string entity.job_type)
    ∷ (bytes "job_status", string entity.status)
    ∷ (bytes "retry_count", int entity.retry_count)
    ∷ (bytes "max_retries", int entity.max_retries)
    ∷ []

-- NewJobLifecycleObserver, for whether the logger is there.
unfoldable pub new_job_lifecycle_observer : Bool → Result (Unit {0})
new_job_lifecycle_observer has_logger = ensure has_logger (foreign (bytes "logger must not be nil"))

abbrev or_none : Text → Text
or_none previous = if length previous == 0 then bytes "none" else previous

-- JobLifecycleObserver.StatusPersisted: the attributes of its record.
unfoldable pub status_persisted : Job → (previous_status : Text) → Attributes
status_persisted entity previous_status =
    job_attributes (some entity)
    ++ (bytes "previous_status", string (or_none previous_status))
      ∷ (bytes "new_status", string entity.status)
      ∷ []
