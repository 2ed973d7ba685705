-- ===== src/Tests/Jobs.antt =====
-- The domain on concrete jobs.
use mathlib.Core.Path.{subst}
use Prim.Native.Nat.{min}
use async_job_poc.Base.{
  ◌⊎◌, ◌≡◌, refl, some, none, pos, [], ◌∷◌, arith, List, true, false, ◌≢◌, inl, ◌↔◌, leb,
  if◌then◌else◌, ◌≤◌, to_nat, max_int,
}
use async_job_poc.Text.{bytes, trim_space, text_eq}
use async_job_poc.Errors.{ok, is_ok, Verbs}
use async_job_poc.Job.Id
use async_job_poc.Job.Kind
use async_job_poc.Job.Status.{status_pending, status_success, status_processing, status_failed}
use async_job_poc.Job.Status
use async_job_poc.Job.Transitions.{IsTimely, IsReason, lifecycle_iff, terminal_absorbs}
use async_job_poc.Time.{zero_instant}
use async_job_poc.Job.Named.{IsUuid, IsType}
use async_job_poc.Job.Getters.{snapshot, restore-snapshot}
use async_job_poc.Job.Valid.{
  mark_processing-IsValid, new-IsValid, record_failure-IsValid, IsObject, new_iff, restore_iff,
  IsRestorable, IsValid,
}
use async_job_poc.Job.History.{IsConsistent, IsSameJob, new-reaches, next, here, processing}
use async_job_poc.Job.Payload.{Unmarshal, entries, validate_payload}
use async_job_poc.Job.Entity.{NewParams, RestoreParams, Job, new, restore}
use async_job_poc.Job.Lifecycle.{mark_processing, mark_success, mark_failed, record_failure}
use async_job_poc.Job.Attempts.{Attempt, AreTimely, new-retries, run_attempts}
use async_job_poc.Tests.World.{an_id, at}

abbrev pub one_entry : Unmarshal
one_entry = λ s. entries 1

abbrev pub verbs : Verbs
verbs = record { quote = λ s. s; itoa = λ n. [] }

abbrev pub params : NewParams
params = record {
  id = an_id;
  job_type = bytes "send_email";
  payload = bytes "{}";
  created_at = at 1;
}

abbrev pub pending_job : Job
pending_job = record {
  id = an_id;
  job_type = bytes "send_email";
  status = bytes "pending";
  payload = bytes "{}";
  retry_count = pos 0;
  max_retries = pos 3;
  last_error = none;
  created_at = at 1;
  updated_at = at 1;
  started_at = none;
  completed_at = none;
}

pub new-pending_job : new one_entry params ≡ ok pending_job
unfolding new Id.is_valid Kind.is_valid validate_payload text_eq Kind.type_send_email trim_space
    status_pending
new-pending_job = refl

abbrev pub processing_job : Job
processing_job = record pending_job {
  status = bytes "processing";
  updated_at = at 2;
  started_at = some (at 2);
}

abbrev two_attempts : List Attempt
two_attempts =
    record { start = at 2; finish = at 3; reason = bytes "down" }
    ∷ record { start = at 5; finish = at 5; reason = bytes " down" }
    ∷ []

two_attempts-AreTimely : AreTimely pending_job.updated_at.instant two_attempts
unfolding trim_space
two_attempts-AreTimely = ground arith

new-retries_example :
    ((run_attempts two_attempts pending_job).status
      ≡ (if leb 2 3 then status_pending else status_failed))
    × ((run_attempts two_attempts pending_job).retry_count ≡ pos (min 3 2))
new-retries_example =
    new-retries one_entry params two_attempts new-pending_job two_attempts-AreTimely

pub started : (mark_processing (at 2) pending_job).0 ≡ none
unfolding mark_processing status_pending text_eq
started = refl

new-reaches_example :
    IsValid one_entry (mark_processing (at 2) pending_job).1
    × IsConsistent (mark_processing (at 2) pending_job).1
    × IsSameJob pending_job (mark_processing (at 2) pending_job).1
new-reaches_example =
    new-reaches one_entry params new-pending_job (next here (processing (at 2) pending_job started))

lifecycle_iff_example :
    (((mark_processing (at 3) processing_job).0 ≡ none)
      ↔ ((processing_job.status ≡ status_pending) × IsTimely processing_job (at 3)))
    × (((mark_success (at 3) processing_job).0 ≡ none)
        ↔ ((processing_job.status ≡ status_processing) × IsTimely processing_job (at 3)))
    × (((mark_failed (at 3) (bytes " ") processing_job).0 ≡ none) ↔ (
        (processing_job.status ≡ status_processing)
        × IsReason (bytes " ")
        × IsTimely processing_job (at 3)))
    × ((is_ok (record_failure (at 3) (bytes " ") processing_job).0 ≡ true) ↔ (
        (processing_job.status ≡ status_processing)
        × IsReason (bytes " ")
        × IsTimely processing_job (at 3)))
    × (((mark_processing (at 3) processing_job).0 ≡ none)
        ⊎ ((mark_processing (at 3) processing_job).1 ≡ processing_job))
    × (((mark_success (at 3) processing_job).0 ≡ none)
        ⊎ ((mark_success (at 3) processing_job).1 ≡ processing_job))
    × (((mark_failed (at 3) (bytes " ") processing_job).0 ≡ none)
        ⊎ ((mark_failed (at 3) (bytes " ") processing_job).1 ≡ processing_job))
    × ((is_ok (record_failure (at 3) (bytes " ") processing_job).0 ≡ true)
        ⊎ ((record_failure (at 3) (bytes " ") processing_job).1 ≡ processing_job))
lifecycle_iff_example = lifecycle_iff (at 3) (bytes " ") processing_job

abbrev done_job : Job
done_job = record processing_job { status = status_success; completed_at = some (at 2) }

terminal_absorbs_example :
    ((mark_processing (at 3) done_job).1 ≡ done_job)
    × ((mark_success (at 3) done_job).1 ≡ done_job)
    × ((mark_failed (at 3) (bytes "down") done_job).1 ≡ done_job)
    × ((record_failure (at 3) (bytes "down") done_job).1 ≡ done_job)
    × ((mark_processing (at 3) done_job).0 ≢ none)
    × ((mark_success (at 3) done_job).0 ≢ none)
    × ((mark_failed (at 3) (bytes "down") done_job).0 ≢ none)
    × (is_ok (record_failure (at 3) (bytes "down") done_job).0 ≡ false)
terminal_absorbs_example = terminal_absorbs (at 3) (bytes "down") done_job (inl refl)

abbrev row : RestoreParams
row = record {
  id = an_id;
  job_type = bytes "send_email";
  status = bytes "pending";
  payload = bytes "{}";
  retry_count = pos 0;
  max_retries = pos 3;
  last_error = none;
  created_at = at 1;
  updated_at = at 1;
  started_at = none;
  completed_at = none;
}

restored : restore one_entry row ≡ ok pending_job
unfolding restore Id.is_valid Kind.is_valid validate_payload text_eq Kind.type_send_email trim_space
    Status.is_valid status_pending
restored = refl

pub three-is_int : to_nat (pos 3) ≤ max_int
three-is_int = omega arith

new_iff_example : (is_ok (new one_entry params) ≡ true) ↔ (
    IsUuid params.id
    × IsType params.job_type
    × IsObject one_entry params.payload
    × (params.created_at.instant ≢ zero_instant))
new_iff_example = new_iff one_entry params

restore_iff_example : (is_ok (restore one_entry row) ≡ true) ↔ IsRestorable one_entry row
restore_iff_example = restore_iff one_entry row

started_job : (mark_processing (at 2) pending_job).1 ≡ processing_job
unfolding mark_processing status_pending status_processing text_eq
started_job = refl

processing-IsValid : IsValid one_entry processing_job
processing-IsValid = subst (IsValid one_entry) started_job (
    mark_processing-IsValid one_entry (at 2) pending_job
      (new-IsValid one_entry params new-pending_job))

restore-snapshot_example :
    restore one_entry (snapshot (record_failure (at 3) (bytes "down") processing_job).1)
    ≡ ok (record_failure (at 3) (bytes "down") processing_job).1
restore-snapshot_example =
    restore-snapshot one_entry (record_failure (at 3) (bytes "down") processing_job).1
      (record_failure-IsValid one_entry (at 3) (bytes "down") processing_job processing-IsValid)
