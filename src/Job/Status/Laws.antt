-- ===== src/Job/Status/Laws.antt =====
-- A valid status is one of the four constants, which are distinct, and parses to itself.
use async_job_poc.Base.{◌≢◌, ◌≡◌, refl, ◌⊎◌, inl, inr, true, false, arith}
use async_job_poc.Text.{Text, text_eq, trim_space, to_lower}
use async_job_poc.Text.Equality.{text_eq_iff, text_ne}
use async_job_poc.Errors.{ok}
use async_job_poc.Job.Status.{
  status_pending, status_processing, status_success, status_failed, is_valid, parse_status,
}

statuses : Unit {0}
unfolding parse_status is_valid status_pending status_processing status_success status_failed
    trim_space to_lower text_eq
statuses = tt

pub is_valid-cases :
    (s : Text)
    → is_valid s ≡ true
    → (s ≡ status_pending)
      ⊎ ((s ≡ status_processing) ⊎ ((s ≡ status_success) ⊎ (s ≡ status_failed)))
unfolding is_valid
is_valid-cases s h = ground (
  arith,
  text_eq_iff s status_pending,
  text_eq_iff s status_processing,
  text_eq_iff s status_success,
  text_eq_iff s status_failed,
)

pub valid_pending : is_valid status_pending ≡ true
unfolding statuses
valid_pending = refl

pub valid_processing : is_valid status_processing ≡ true
unfolding statuses
valid_processing = refl

pub valid_success : is_valid status_success ≡ true
unfolding statuses
valid_success = refl

pub valid_failed : is_valid status_failed ≡ true
unfolding statuses
valid_failed = refl

parse_pending : parse_status status_pending ≡ ok status_pending
unfolding statuses
parse_pending = refl

parse_processing : parse_status status_processing ≡ ok status_processing
unfolding statuses
parse_processing = refl

parse_success : parse_status status_success ≡ ok status_success
unfolding statuses
parse_success = refl

parse_failed : parse_status status_failed ≡ ok status_failed
unfolding statuses
parse_failed = refl

-- A valid status parses to itself.
pub parse_status-valid : (s : Text) → is_valid s ≡ true → parse_status s ≡ ok s
parse_status-valid s h = elim (is_valid-cases s h) [
  | inl e ↦ rw e parse_pending
  | inr (inl e) ↦ rw e parse_processing
  | inr (inr (inl e)) ↦ rw e parse_success
  | inr (inr (inr e)) ↦ rw e parse_failed
]

-- What parses is valid.
pub parse_status-ok : (s : Text) {t : Text} → parse_status s ≡ ok t → is_valid t ≡ true
unfolding parse_status
parse_status-ok s h = ground arith

-- The tests between the constants that the lifecycle makes.
pub pending_not_processing : text_eq status_pending status_processing ≡ false
unfolding statuses
pending_not_processing = refl

pub processing_not_pending : text_eq status_processing status_pending ≡ false
unfolding statuses
processing_not_pending = refl

pub success_not_pending : text_eq status_success status_pending ≡ false
unfolding statuses
success_not_pending = refl

pub success_not_processing : text_eq status_success status_processing ≡ false
unfolding statuses
success_not_processing = refl

pub failed_not_pending : text_eq status_failed status_pending ≡ false
unfolding statuses
failed_not_pending = refl

pub failed_not_processing : text_eq status_failed status_processing ≡ false
unfolding statuses
failed_not_processing = refl

-- The constants are distinct.
pub pending-ne-processing : status_pending ≢ status_processing
unfolding statuses
pending-ne-processing = text_ne status_pending status_processing refl

pub pending-ne-success : status_pending ≢ status_success
unfolding statuses
pending-ne-success = text_ne status_pending status_success refl

pub pending-ne-failed : status_pending ≢ status_failed
unfolding statuses
pending-ne-failed = text_ne status_pending status_failed refl

pub processing-ne-success : status_processing ≢ status_success
unfolding statuses
processing-ne-success = text_ne status_processing status_success refl

pub processing-ne-failed : status_processing ≢ status_failed
unfolding statuses
processing-ne-failed = text_ne status_processing status_failed refl

pub success-ne-failed : status_success ≢ status_failed
unfolding statuses
success-ne-failed = text_ne status_success status_failed refl

pub ruleset distinct_statuses = (
  pending-ne-processing, pending-ne-success, pending-ne-failed, processing-ne-success,
  processing-ne-failed, success-ne-failed,
)
