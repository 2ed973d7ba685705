-- ===== src/Job/History.antt =====
-- The transitions as a relation between entities, and what holds of every entity that they reach
-- from a new one.
use async_job_poc.Base.{◌≡◌, ◌≢◌, true, none, some, arith, ◌≤◌}
use async_job_poc.Text.{Text}
use async_job_poc.Text.Equality.{text_eq_iff}
use async_job_poc.Time.{Time}
use async_job_poc.Errors.{ok, is_ok}
use async_job_poc.Job.Status.{status_pending, status_processing, status_success, status_failed}
use async_job_poc.Job.Status.Laws.{distinct_statuses}
use async_job_poc.Job.Payload.{Unmarshal}
use async_job_poc.Job.Entity.{NewParams, Job, new}
use async_job_poc.Job.Lifecycle.{mark_processing, mark_success, mark_failed, record_failure}
use async_job_poc.Job.Valid.{
  IsValid, new-IsValid, mark_processing-IsValid, mark_success-IsValid, mark_failed-IsValid,
  record_failure-IsValid,
}

-- A transition that succeeds.
pub data Step : Job → Job → Type 0 where
  processing :
      (at : Time) (j : Job) → (mark_processing at j).0 ≡ none → Step j (mark_processing at j).1
  success : (at : Time) (j : Job) → (mark_success at j).0 ≡ none → Step j (mark_success at j).1
  failed :
      (at : Time) (reason : Text) (j : Job)
      → (mark_failed at reason j).0 ≡ none
      → Step j (mark_failed at reason j).1
  failure :
      (at : Time) (reason : Text) (j : Job)
      → is_ok (record_failure at reason j).0 ≡ true
      → Step j (record_failure at reason j).1

pub data Reach (j : Job) : Job → Type 0 where
  here : Reach j j
  next : {k l : Job} → Reach j k → Step k l → Reach j l

pub Reach-trans : {j k l : Job} → Reach j k → Reach k l → Reach j l
Reach-trans r here = r
Reach-trans r (next s t) = next (Reach-trans r s) t

-- How the status, the lifecycle times and the last error of an entity belong together.
pub record IsConsistent (j : Job) : Type 0 where
  pub pending : j.status ≡ status_pending → j.completed_at ≡ none
  pub processing :
      j.status ≡ status_processing → (j.completed_at ≡ none) × (j.started_at ≡ some j.updated_at)
  pub success :
      j.status ≡ status_success
      → (j.completed_at ≡ some j.updated_at) × (j.last_error ≡ none) × (j.started_at ≢ none)
  pub failed :
      j.status ≡ status_failed
      → (j.completed_at ≡ some j.updated_at) × (j.last_error ≢ none) × (j.started_at ≢ none)

new-IsConsistent :
    (unmarshal : Unmarshal) (p : NewParams) {j : Job} → new unmarshal p ≡ ok j → IsConsistent j
unfolding new
new-IsConsistent unmarshal p h = ground (arith, distinct_statuses)

mark_processing-IsConsistent :
    (at : Time) (j : Job) → IsConsistent j → IsConsistent (mark_processing at j).1
unfolding mark_processing
mark_processing-IsConsistent at j c = ground (arith, distinct_statuses)

mark_success-IsConsistent :
    (at : Time) (j : Job) → IsConsistent j → IsConsistent (mark_success at j).1
unfolding mark_success
mark_success-IsConsistent at j c =
    ground (arith, distinct_statuses, text_eq_iff j.status status_processing)

mark_failed-IsConsistent :
    (at : Time) (reason : Text) (j : Job)
    → IsConsistent j
    → IsConsistent (mark_failed at reason j).1
unfolding mark_failed
mark_failed-IsConsistent at reason j c =
    ground (arith, distinct_statuses, text_eq_iff j.status status_processing)

record_failure-IsConsistent :
    (at : Time) (reason : Text) (j : Job)
    → IsConsistent j
    → IsConsistent (record_failure at reason j).1
unfolding record_failure
record_failure-IsConsistent at reason j c =
    ground (arith, distinct_statuses, text_eq_iff j.status status_processing)

Step-IsConsistent : {j k : Job} → Step j k → IsConsistent j → IsConsistent k
Step-IsConsistent (processing at j h) c = mark_processing-IsConsistent at j c
Step-IsConsistent (success at j h) c = mark_success-IsConsistent at j c
Step-IsConsistent (failed at reason j h) c = mark_failed-IsConsistent at reason j c
Step-IsConsistent (failure at reason j h) c = record_failure-IsConsistent at reason j c

Step-IsValid :
    {unmarshal : Unmarshal} {j k : Job} → Step j k → IsValid unmarshal j → IsValid unmarshal k
Step-IsValid {unmarshal} (processing at j h) v = mark_processing-IsValid unmarshal at j v
Step-IsValid {unmarshal} (success at j h) v = mark_success-IsValid unmarshal at j v
Step-IsValid {unmarshal} (failed at reason j h) v = mark_failed-IsValid unmarshal at reason j v
Step-IsValid {unmarshal} (failure at reason j h) v = record_failure-IsValid unmarshal at reason j v

Reach-IsConsistent : {j k : Job} → Reach j k → IsConsistent j → IsConsistent k
Reach-IsConsistent here c = c
Reach-IsConsistent (next r s) c = Step-IsConsistent s (Reach-IsConsistent r c)

pub Reach-IsValid :
    {unmarshal : Unmarshal} {j k : Job} → Reach j k → IsValid unmarshal j → IsValid unmarshal k
Reach-IsValid here v = v
Reach-IsValid (next r s) v = Step-IsValid s (Reach-IsValid r v)

-- What no transition changes: the identity, the type, the payload, the retry limit, the creation
-- time. The update time never goes back.
pub record IsSameJob (j k : Job) : Type 0 where
  pub id : k.id ≡ j.id
  pub job_type : k.job_type ≡ j.job_type
  pub payload : k.payload ≡ j.payload
  pub max_retries : k.max_retries ≡ j.max_retries
  pub created_at : k.created_at ≡ j.created_at
  pub updated_at : j.updated_at.instant ≤ k.updated_at.instant

Step-IsSameJob : {j k : Job} → Step j k → IsSameJob j k
unfolding mark_processing mark_success mark_failed record_failure
Step-IsSameJob (processing at j h) = ground arith
Step-IsSameJob (success at j h) = ground arith
Step-IsSameJob (failed at reason j h) = ground arith
Step-IsSameJob (failure at reason j h) = ground arith

pub Reach-IsSameJob : {j k : Job} → Reach j k → IsSameJob j k
Reach-IsSameJob here = ground arith
Reach-IsSameJob (next r s) = let a = Reach-IsSameJob r in let b = Step-IsSameJob s in ground arith

-- Every entity that the transitions reach from a new one satisfies the invariant of Restore, has
-- its status, lifecycle times and last error in step, and is the same job.
pub new-reaches :
    (unmarshal : Unmarshal) (p : NewParams) {j k : Job}
    → new unmarshal p ≡ ok j
    → Reach j k
    → IsValid unmarshal k × IsConsistent k × IsSameJob j k
new-reaches unmarshal p h r = (
  Reach-IsValid r (new-IsValid unmarshal p h),
  Reach-IsConsistent r (new-IsConsistent unmarshal p h),
  Reach-IsSameJob r,
)
