-- ===== src/Job/Lifecycle.antt =====
-- The transitions of internal/domain/job/job.go and internal/domain/job/failure.go. A method that
-- mutates the entity returns its result and the entity that it leaves.
use async_job_poc.Base.{
  Bool, not, ◌||◌, Option, none, some, [], ◌∷◌, length, ◌==◌, ltb_ℤ, inc, if◌then◌else◌,
}
use async_job_poc.Text.{Text, bytes, text_eq, trim_space}
use async_job_poc.Time.{Time, is_zero, before, utc}
use async_job_poc.Errors.{
  Error, sentinel, wrap, text, invalid_event_time, invalid_transition, invalid_failure_reason,
  Result, ok, err,
}
use async_job_poc.Job.Status.{status_pending, status_processing, status_success, status_failed}
use async_job_poc.Job.Entity.{Job}

-- transitionTime
pub transition_time : Job → Time → Result Time
transition_time entity at =
    if is_zero at || before at entity.updated_at
    then err (
        wrap [] (sentinel invalid_event_time)
          (text (bytes ": transition time must not be before the last update") ∷ []))
    else ok (utc at)

-- fmt.Errorf("%w: cannot move job from %s to %s", …)
pub move_error : Job → Text → Error
move_error entity to = wrap [] (sentinel invalid_transition) (
    text (bytes ": cannot move job from ")
    ∷ text entity.status
    ∷ text (bytes " to ")
    ∷ text to
    ∷ [])

-- MarkProcessing
unfoldable pub mark_processing : Time → Job → Option Error × Job
unfolding transition_time
mark_processing at entity =
    if not (text_eq entity.status status_pending)
    then (some (move_error entity status_processing), entity)
    else elim (transition_time entity at) [
      | err e ↦ (some e, entity)
      | ok t ↦ (
        none,
        record entity {
          status = status_processing;
          started_at = some t;
          completed_at = none;
          updated_at = t;
        },
      )
    ]

-- MarkSuccess
unfoldable pub mark_success : Time → Job → Option Error × Job
unfolding transition_time
mark_success at entity =
    if not (text_eq entity.status status_processing)
    then (some (move_error entity status_success), entity)
    else elim (transition_time entity at) [
      | err e ↦ (some e, entity)
      | ok t ↦ (
        none,
        record entity {
          status = status_success;
          completed_at = some t;
          last_error = none;
          updated_at = t;
        },
      )
    ]

-- MarkFailed
unfoldable pub mark_failed : Time → Text → Job → Option Error × Job
unfolding transition_time
mark_failed at reason entity =
    let normalized = trim_space reason in
    if not (text_eq entity.status status_processing)
    then (some (move_error entity status_failed), entity)
    else if length normalized == 0
    then (some (sentinel invalid_failure_reason), entity)
    else elim (transition_time entity at) [
      | err e ↦ (some e, entity)
      | ok t ↦ (
        none,
        record entity {
          status = status_failed;
          last_error = some normalized;
          completed_at = some t;
          updated_at = t;
        },
      )
    ]

pub data FailureOutcome : Type 0 where
  retry_scheduled terminal_failure : FailureOutcome

-- CanRetry
unfoldable pub can_retry : Job → Bool
can_retry entity = ltb_ℤ entity.retry_count entity.max_retries

-- The part of RecordFailure after its checks: `entity` has its last error and update time.
pub settle_failure : Time → Job → Result FailureOutcome × Job
unfolding can_retry
settle_failure t entity =
    if can_retry entity
    then (
      ok retry_scheduled,
      record entity {
        retry_count = inc entity.retry_count;
        status = status_pending;
        completed_at = none;
      },
    )
    else (ok terminal_failure, record entity { status = status_failed; completed_at = some t })

-- RecordFailure
unfoldable pub record_failure : Time → Text → Job → Result FailureOutcome × Job
unfolding transition_time settle_failure
record_failure at reason entity =
    let normalized = trim_space reason in
    if not (text_eq entity.status status_processing)
    then (
      err (
          wrap [] (sentinel invalid_transition)
            (text (bytes ": cannot record failure while job is ") ∷ text entity.status ∷ [])),
      entity,
    )
    else if length normalized == 0
    then (err (sentinel invalid_failure_reason), entity)
    else elim (transition_time entity at) [
      | err e ↦ (err e, entity)
      | ok t ↦ settle_failure t (record entity { last_error = some normalized; updated_at = t })
    ]
