-- ===== src/Job/Transitions.antt =====
-- When each transition succeeds, and what it leaves alone when it does not.
use async_job_poc.Base.{
  ◌≤◌, ◌≡◌, ◌≢◌, ◌↔◌, ◌⊎◌, inl, inr, true, false, none, some, length, arith, ltb_ℤ, inc,
}
use async_job_poc.Text.{Text, trim_space}
use async_job_poc.Text.Equality.{text_eq_iff}
use async_job_poc.Time.{Time, zero_instant, utc}
use async_job_poc.Errors.{ok, is_ok}
use async_job_poc.Job.Status
use async_job_poc.Job.Status.{status_pending, status_processing, status_success, status_failed}
use async_job_poc.Job.Status.Laws.{
  valid_pending, valid_processing, valid_success, valid_failed, success_not_pending,
  success_not_processing, failed_not_pending, failed_not_processing,
}
use async_job_poc.Job.Entity.{Job}
use async_job_poc.Job.Lifecycle.{
  mark_processing, mark_success, mark_failed, record_failure, retry_scheduled, terminal_failure,
}

-- `at` can be the time of the next event of `j`.
abbrev pub IsTimely : Job → Time → Type 0
IsTimely j at = (at.instant ≢ zero_instant) × (j.updated_at.instant ≤ at.instant)

-- A reason that is not blank.
abbrev pub IsReason : Text → Type 0
IsReason reason = length (trim_space reason) ≢ 0

-- MarkProcessing succeeds exactly for a pending job at a timely event.
pub mark_processing_iff :
    (at : Time) (j : Job)
    → ((mark_processing at j).0 ≡ none) ↔ ((j.status ≡ status_pending) × IsTimely j at)
unfolding mark_processing
mark_processing_iff at j = ground (arith, text_eq_iff j.status status_pending)

-- MarkSuccess succeeds exactly for a processing job at a timely event.
mark_success_iff :
    (at : Time) (j : Job)
    → ((mark_success at j).0 ≡ none) ↔ ((j.status ≡ status_processing) × IsTimely j at)
unfolding mark_success
mark_success_iff at j = ground (arith, text_eq_iff j.status status_processing)

-- MarkFailed succeeds exactly for a processing job, a reason that is not blank and a timely event.
mark_failed_iff :
    (at : Time) (reason : Text) (j : Job)
    → ((mark_failed at reason j).0 ≡ none)
      ↔ ((j.status ≡ status_processing) × IsReason reason × IsTimely j at)
unfolding mark_failed
mark_failed_iff at reason j = ground (arith, text_eq_iff j.status status_processing)

-- RecordFailure succeeds exactly for a processing job, a reason that is not blank and a timely
-- event.
record_failure_iff :
    (at : Time) (reason : Text) (j : Job)
    → (is_ok (record_failure at reason j).0 ≡ true)
      ↔ ((j.status ≡ status_processing) × IsReason reason × IsTimely j at)
unfolding record_failure
record_failure_iff at reason j = ground (arith, text_eq_iff j.status status_processing)

-- Each of the four transitions succeeds or leaves the entity as it was.
refused_unchanged :
    (at : Time) (reason : Text) (j : Job)
    → (((mark_processing at j).0 ≡ none) ⊎ ((mark_processing at j).1 ≡ j))
      × (((mark_success at j).0 ≡ none) ⊎ ((mark_success at j).1 ≡ j))
      × (((mark_failed at reason j).0 ≡ none) ⊎ ((mark_failed at reason j).1 ≡ j))
      × ((is_ok (record_failure at reason j).0 ≡ true) ⊎ ((record_failure at reason j).1 ≡ j))
unfolding mark_processing mark_success mark_failed record_failure
refused_unchanged at reason j = (ground arith, ground arith, ground arith, ground arith)

-- MarkProcessing succeeds exactly for a pending job, and MarkSuccess, MarkFailed and RecordFailure
-- exactly for a processing job; each of them at a timely event, and the last two with a reason that
-- is not blank. One that does not succeed leaves the entity as it was.
pub lifecycle_iff :
    (at : Time) (reason : Text) (j : Job)
    → (((mark_processing at j).0 ≡ none) ↔ ((j.status ≡ status_pending) × IsTimely j at))
      × (((mark_success at j).0 ≡ none) ↔ ((j.status ≡ status_processing) × IsTimely j at))
      × (((mark_failed at reason j).0 ≡ none)
          ↔ ((j.status ≡ status_processing) × IsReason reason × IsTimely j at))
      × ((is_ok (record_failure at reason j).0 ≡ true)
          ↔ ((j.status ≡ status_processing) × IsReason reason × IsTimely j at))
      × (((mark_processing at j).0 ≡ none) ⊎ ((mark_processing at j).1 ≡ j))
      × (((mark_success at j).0 ≡ none) ⊎ ((mark_success at j).1 ≡ j))
      × (((mark_failed at reason j).0 ≡ none) ⊎ ((mark_failed at reason j).1 ≡ j))
      × ((is_ok (record_failure at reason j).0 ≡ true) ⊎ ((record_failure at reason j).1 ≡ j))
lifecycle_iff at reason j =
    let (processing, success, failed, failure) = refused_unchanged at reason j in
    (
      mark_processing_iff at j,
      mark_success_iff at j,
      mark_failed_iff at reason j,
      record_failure_iff at reason j,
      processing,
      success,
      failed,
      failure,
    )

-- What MarkProcessing leaves of a pending job at a timely event.
pub mark_processing_lem :
    (at : Time) (j : Job)
    → j.status ≡ status_pending
    → IsTimely j at
    → mark_processing at j ≡ (
      none,
      record j {
        status = status_processing;
        started_at = some (utc at);
        completed_at = none;
        updated_at = utc at;
      },
    )
unfolding mark_processing
mark_processing_lem at j p t = ground (arith, text_eq_iff j.status status_pending)

pub mark_success_lem :
    (at : Time) (j : Job)
    → j.status ≡ status_processing
    → IsTimely j at
    → mark_success at j ≡ (
      none,
      record j {
        status = status_success;
        completed_at = some (utc at);
        last_error = none;
        updated_at = utc at;
      },
    )
unfolding mark_success
mark_success_lem at j p t = ground (arith, text_eq_iff j.status status_processing)

-- With retries left RecordFailure schedules one: the job is pending again and its counter is one
-- more.
pub record_failure_retry :
    (at : Time) (reason : Text) (j : Job)
    → j.status ≡ status_processing
    → IsReason reason
    → IsTimely j at
    → ltb_ℤ j.retry_count j.max_retries ≡ true
    → record_failure at reason j ≡ (
      ok retry_scheduled,
      record j {
        status = status_pending;
        retry_count = inc j.retry_count;
        last_error = some (trim_space reason);
        updated_at = utc at;
        completed_at = none;
      },
    )
unfolding record_failure
record_failure_retry at reason j p r t c = ground (arith, text_eq_iff j.status status_processing)

-- With none left the job fails for good.
pub record_failure_terminal :
    (at : Time) (reason : Text) (j : Job)
    → j.status ≡ status_processing
    → IsReason reason
    → IsTimely j at
    → ltb_ℤ j.retry_count j.max_retries ≡ false
    → record_failure at reason j ≡ (
      ok terminal_failure,
      record j {
        status = status_failed;
        last_error = some (trim_space reason);
        updated_at = utc at;
        completed_at = some (utc at);
      },
    )
unfolding record_failure
record_failure_terminal at reason j p r t c = ground (arith, text_eq_iff j.status status_processing)

abbrev pub IsTerminal : Job → Type 0
IsTerminal j = (j.status ≡ status_success) ⊎ (j.status ≡ status_failed)

-- A successful or failed job takes no further transition: each of the four is refused, at any time
-- and for any reason, and leaves the entity as it was.
pub terminal_absorbs :
    (at : Time) (reason : Text) (j : Job)
    → IsTerminal j
    → ((mark_processing at j).1 ≡ j)
      × ((mark_success at j).1 ≡ j)
      × ((mark_failed at reason j).1 ≡ j)
      × ((record_failure at reason j).1 ≡ j)
      × ((mark_processing at j).0 ≢ none)
      × ((mark_success at j).0 ≢ none)
      × ((mark_failed at reason j).0 ≢ none)
      × (is_ok (record_failure at reason j).0 ≡ false)
unfolding mark_processing mark_success mark_failed record_failure
terminal_absorbs at reason j (inl h) = ground (arith, success_not_pending, success_not_processing)
terminal_absorbs at reason j (inr h) = ground (arith, failed_not_pending, failed_not_processing)

-- The statuses that the transitions write are valid.
pub is_valid-mark_processing :
    (at : Time) (j : Job)
    → (mark_processing at j).0 ≡ none
    → Status.is_valid (mark_processing at j).1.status ≡ true
unfolding mark_processing
is_valid-mark_processing at j h = ground (arith, valid_processing)

pub is_valid-mark_success :
    (at : Time) (j : Job)
    → (mark_success at j).0 ≡ none
    → Status.is_valid (mark_success at j).1.status ≡ true
unfolding mark_success
is_valid-mark_success at j h = ground (arith, valid_success)

pub is_valid-record_failure :
    (at : Time) (reason : Text) (j : Job)
    → is_ok (record_failure at reason j).0 ≡ true
    → Status.is_valid (record_failure at reason j).1.status ≡ true
unfolding record_failure
is_valid-record_failure at reason j h = ground (arith, valid_pending, valid_failed)
