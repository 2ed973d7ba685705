-- ===== src/Job/Getters.antt =====
-- internal/domain/job/job.go: the getters of the entity, and the clones that they and the
-- constructors make. A pointer is an option; a pair with false stands for no value.
use async_job_poc.Base.{◌≡◌, refl, Bool, true, false, Option, none, some, [], ◌++◌}
use async_job_poc.Text.{Text}
use async_job_poc.Time.{Time, zero_time}
use async_job_poc.Errors.{ok}
use async_job_poc.Job.Payload.{Unmarshal}
use async_job_poc.Job.Entity.{Job, RestoreParams, restore}
use async_job_poc.Job.Valid.{IsValid, restore_valid}

-- append(json.RawMessage(nil), payload...)
unfoldable pub clone_payload : Text → Text
clone_payload payload = [] ++ payload

-- cloneStringPointer
unfoldable pub clone_string_pointer : Option Text → Option Text
clone_string_pointer none = none
clone_string_pointer (some value) = some value

-- Job.Payload
unfoldable pub payload : Job → Text
unfolding clone_payload
payload job = clone_payload job.payload

value_or : {A : Type 0} → A → Option A → A × Bool
value_or zero none = (zero, false)
value_or zero (some value) = (value, true)

-- Job.LastError
unfoldable pub last_error : Job → Text × Bool
unfolding value_or
last_error job = value_or [] job.last_error

-- Job.StartedAt and Job.CompletedAt
unfoldable pub started_at : Job → Time × Bool
unfolding value_or
started_at job = value_or zero_time job.started_at

unfoldable pub completed_at : Job → Time × Bool
unfolding value_or
completed_at job = value_or zero_time job.completed_at

-- `if value, exists := …; exists { pointer = &value }`
abbrev pub pointer : {A : Type 0} → A × Bool → Option A
pointer (value, true) = some value
pointer (value, false) = none

-- What a caller outside the package can read of an entity.
unfoldable pub snapshot : Job → RestoreParams
unfolding payload last_error started_at completed_at
snapshot job = record {
  id = job.id;
  job_type = job.job_type;
  status = job.status;
  payload = payload job;
  retry_count = job.retry_count;
  max_retries = job.max_retries;
  last_error = pointer (last_error job);
  created_at = job.created_at;
  updated_at = job.updated_at;
  started_at = pointer (started_at job);
  completed_at = pointer (completed_at job);
}

pointer-value_or : {A : Type 0} (zero : A) (o : Option A) → pointer (value_or zero o) ≡ o
unfolding value_or
pointer-value_or zero none = refl
pointer-value_or zero (some value) = refl

-- From what the getters of a valid entity return, Restore makes the same entity again.
pub restore-snapshot :
    (unmarshal : Unmarshal) (j : Job) → IsValid unmarshal j → restore unmarshal (snapshot j) ≡ ok j
unfolding snapshot
restore-snapshot unmarshal j v =
    rw
      (
        pointer-value_or [] j.last_error,
        pointer-value_or zero_time j.started_at,
        pointer-value_or zero_time j.completed_at,
      )
      (restore_valid unmarshal j v)
