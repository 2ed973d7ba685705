-- ===== src/Job/Entity.antt =====
-- internal/domain/job/job.go: the entity and its two constructors. A clone of a slice or of a
-- pointed-to value is the value itself here, since nothing in the model is shared and mutable; the
-- getters are the fields. A counter is a Go int.
use async_job_poc.Base.{ℤ, pos, Bool, false, not, ◌||◌, Option, none, some, [], ◌∷◌, ltb_ℤ}
use async_job_poc.Text.{Text, bytes}
use async_job_poc.Time.{Time, is_zero, before, utc}
use async_job_poc.Errors.{
  Error, sentinel, wrap, text, number, invalid_created_at, invalid_updated_at, invalid_retry,
  invalid_event_time, Result, ok, err, ◌>>◌, ensure,
}
use async_job_poc.Job.Id
use async_job_poc.Job.Id.{id_error}
use async_job_poc.Job.Kind
use async_job_poc.Job.Kind.{type_error}
use async_job_poc.Job.Status
use async_job_poc.Job.Status.{status_error, status_pending}
use async_job_poc.Job.Payload.{Unmarshal, validate_payload}

abbrev pub default_max_retries : ℤ
default_max_retries = pos 3

pub record NewParams : Type 0 where
  pub id : Text
  pub job_type : Text
  pub payload : Text
  pub created_at : Time

pub record RestoreParams : Type 0 where
  pub id : Text
  pub job_type : Text
  pub status : Text
  pub payload : Text
  pub retry_count : ℤ
  pub max_retries : ℤ
  pub last_error : Option Text
  pub created_at : Time
  pub updated_at : Time
  pub started_at : Option Time
  pub completed_at : Option Time

pub record Job : Type 0 where
  pub id : Text
  pub job_type : Text
  pub status : Text
  pub payload : Text
  pub retry_count : ℤ
  pub max_retries : ℤ
  pub last_error : Option Text
  pub created_at : Time
  pub updated_at : Time
  pub started_at : Option Time
  pub completed_at : Option Time

-- `if err := …; err != nil { return nil, err }`
abbrev pub refuse : Option Error → Result (Unit {0})
refuse none = ok tt
refuse (some e) = err e

-- `at != nil && at.IsZero()`
abbrev pub is_zero_pointer : Option Time → Bool
is_zero_pointer none = false
is_zero_pointer (some at) = is_zero at

-- cloneTimePointerUTC
abbrev pub utc_pointer : Option Time → Option Time
utc_pointer none = none
utc_pointer (some at) = some (utc at)

-- New
unfoldable pub new : Unmarshal → NewParams → Result Job
new unmarshal params = do
  ensure (Id.is_valid params.id) (id_error params.id)
  ensure (Kind.is_valid params.job_type) (type_error params.job_type)
  refuse (validate_payload unmarshal params.payload)
  ensure (not (is_zero params.created_at)) (sentinel invalid_created_at)
  let created_at = utc params.created_at
  ok (record {
    id = params.id;
    job_type = params.job_type;
    status = status_pending;
    payload = params.payload;
    retry_count = pos 0;
    max_retries = default_max_retries;
    last_error = none;
    created_at = created_at;
    updated_at = created_at;
    started_at = none;
    completed_at = none;
  })

-- fmt.Errorf("%w: retry count %d, max retries %d", …)
abbrev retry_error : ℤ → ℤ → Error
retry_error count max =
    wrap [] (sentinel invalid_retry) (
      text (bytes ": retry count ")
      ∷ number count
      ∷ text (bytes ", max retries ")
      ∷ number max
      ∷ [])

abbrev event_time_error : Text → Error
event_time_error reason = wrap [] (sentinel invalid_event_time) (text reason ∷ [])

-- params.RetryCount < 0 || params.MaxRetries <= 0 || params.RetryCount > params.MaxRetries
pub are_bad_retries : ℤ → ℤ → Bool
are_bad_retries count max = ltb_ℤ count (pos 0) || not (ltb_ℤ (pos 0) max) || ltb_ℤ max count

-- Restore
unfoldable pub restore : Unmarshal → RestoreParams → Result Job
unfolding are_bad_retries
restore unmarshal params = do
  ensure (Id.is_valid params.id) (id_error params.id)
  ensure (Kind.is_valid params.job_type) (type_error params.job_type)
  ensure (Status.is_valid params.status) (status_error params.status)
  refuse (validate_payload unmarshal params.payload)
  ensure (not (are_bad_retries params.retry_count params.max_retries))
      (retry_error params.retry_count params.max_retries)
  ensure (not (is_zero params.created_at)) (sentinel invalid_created_at)
  ensure (not (is_zero params.updated_at || before params.updated_at params.created_at))
      (sentinel invalid_updated_at)
  ensure (not (is_zero_pointer params.started_at)) (event_time_error (bytes ": started_at"))
  ensure (not (is_zero_pointer params.completed_at)) (event_time_error (bytes ": completed_at"))
  ok (record {
    id = params.id;
    job_type = params.job_type;
    status = params.status;
    payload = params.payload;
    retry_count = params.retry_count;
    max_retries = params.max_retries;
    last_error = params.last_error;
    created_at = utc params.created_at;
    updated_at = utc params.updated_at;
    started_at = utc_pointer params.started_at;
    completed_at = utc_pointer params.completed_at;
  })
