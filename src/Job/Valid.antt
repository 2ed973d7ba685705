-- ===== src/Job/Valid.antt =====
-- The invariant of the entity: what Restore checks, with every time in UTC; and New, Restore and the
-- transitions with respect to it.
use async_job_poc.Base.{
  ℕ, zero, suc, refl, [], ◌≤◌, ◌<◌, ℤ, pos, ◌≡◌, ◌≢◌, ◌↔◌, true, Option, none, some, arith, to_nat,
  max_int,
}
use async_job_poc.Text.{Text, trim_space}
use async_job_poc.Time.{Time, zero_instant}
use async_job_poc.Errors.{ok, is_ok}
use async_job_poc.Job.Id
use async_job_poc.Job.Kind
use async_job_poc.Job.Status
use async_job_poc.Job.Status.Laws.{valid_pending, valid_processing, valid_success, valid_failed}
use async_job_poc.Job.Named.{IsUuid, IsType, IsStatus, IsUuid-iff, IsType-iff, IsStatus-iff}
use async_job_poc.Job.Payload.{
  Unmarshal, Unmarshalled, malformed, nil_map, entries, check_object, validate_payload,
}
use async_job_poc.Job.Entity.{NewParams, RestoreParams, Job, new, restore}
use async_job_poc.Job.Lifecycle.{mark_processing, mark_success, mark_failed, record_failure}

-- A recorded time: in UTC and not the zero time.
abbrev pub IsRecorded : Time → Type 0
IsRecorded t = (t.location ≡ 0) × (t.instant ≢ zero_instant)

abbrev pub IsRecorded? : Option Time → Type 0
IsRecorded? none = Unit
IsRecorded? (some t) = IsRecorded t

-- 0 ≤ count ≤ max and 0 < max ≤ 2 ^ 63 - 1
abbrev pub AreRetries : ℤ → ℤ → Type 0
AreRetries (pos count) (pos max) = (count ≤ max) × (0 < max) × (max ≤ max_int)
AreRetries _ _ = ⊥

-- 0 ≤ count ≤ max and 0 < max
abbrev pub AreCounts : ℤ → ℤ → Type 0
AreCounts (pos count) (pos max) = (count ≤ max) × (0 < max)
AreCounts _ _ = ⊥

abbrev pub IsNotZero? : Option Time → Type 0
IsNotZero? none = Unit
IsNotZero? (some t) = t.instant ≢ zero_instant

pub record IsValid (unmarshal : Unmarshal) (j : Job) : Type 0 where
  pub id : Id.is_valid j.id ≡ true
  pub kind : Kind.is_valid j.job_type ≡ true
  pub status : Status.is_valid j.status ≡ true
  pub payload : validate_payload unmarshal j.payload ≡ none
  pub retries : AreRetries j.retry_count j.max_retries
  pub created : IsRecorded j.created_at
  pub updated : IsRecorded j.updated_at
  pub ordered : j.created_at.instant ≤ j.updated_at.instant
  pub started : IsRecorded? j.started_at
  pub completed : IsRecorded? j.completed_at

-- The checks of an object that is read.
check_object_iff : (u : Unmarshalled) → (check_object u ≡ none) ↔ ((n : ℕ) × (u ≡ entries (suc n)))
unfolding check_object
check_object_iff (malformed reason) = (λ h. cc, λ (n, h). cc)
check_object_iff nil_map = (λ h. cc, λ (n, h). cc)
check_object_iff (entries zero) = (λ h. cc, λ (n, h). ground arith)
check_object_iff (entries (suc n)) = (λ h. (n, refl), λ h. ground arith)

module _ (unmarshal : Unmarshal) where
  -- A new job satisfies the invariant.
  pub new-IsValid : (p : NewParams) {j : Job} → new unmarshal p ≡ ok j → IsValid unmarshal j
  unfolding new
  new-IsValid p h = ground (arith, valid_pending)

  -- A job that Restore returns satisfies the invariant, if the retry limit is an int.
  pub restore-IsValid :
      (p : RestoreParams) {j : Job}
      → to_nat p.max_retries ≤ max_int
      → restore unmarshal p ≡ ok j
      → IsValid unmarshal j
  unfolding restore
  restore-IsValid p b h = ground arith

  -- A payload that is not white space, and that encoding/json reads as an object with an entry.
  abbrev pub IsObject : Text → Type 0
  IsObject payload =
      (trim_space payload ≢ []) × ((n : ℕ) × (unmarshal (trim_space payload) ≡ entries (suc n)))

  pub validate_payload_iff : (s : Text) → (validate_payload unmarshal s ≡ none) ↔ IsObject s
  unfolding validate_payload
  validate_payload_iff s =
      let (to_entry, of_entry) = check_object_iff (unmarshal (trim_space s)) in
      (
        λ h. (λ e. ground arith, to_entry (ground arith)),
        λ (given, entry). let passes = of_entry entry in ground arith,
      )

  -- New accepts exactly the parameters whose ID has the form of a UUID, whose type is one of the
  -- three, with a payload that is a JSON object with an entry, and a creation time that is not zero.
  pub new_iff :
      (p : NewParams)
      → (is_ok (new unmarshal p) ≡ true) ↔ (
          IsUuid p.id
          × IsType p.job_type
          × IsObject p.payload
          × (p.created_at.instant ≢ zero_instant))
  unfolding new
  new_iff p = ground (arith, IsUuid-iff p.id, IsType-iff p.job_type, validate_payload_iff p.payload)

  pub record IsRestorable (p : RestoreParams) : Type 0 where
    pub id : IsUuid p.id
    pub kind : IsType p.job_type
    pub status : IsStatus p.status
    pub payload : IsObject p.payload
    pub retries : AreCounts p.retry_count p.max_retries
    pub created : p.created_at.instant ≢ zero_instant
    pub updated : p.updated_at.instant ≢ zero_instant
    pub ordered : p.created_at.instant ≤ p.updated_at.instant
    pub started : IsNotZero? p.started_at
    pub completed : IsNotZero? p.completed_at

  -- Restore accepts exactly the parameters whose ID has the form of a UUID, whose type and status are
  -- among the three and the four, with a payload that is a JSON object with an entry, 0 ≤ retry count ≤ retry limit with a positive limit, times that are not
  -- zero, and an update that does not precede the creation.
  pub restore_iff : (p : RestoreParams) → (is_ok (restore unmarshal p) ≡ true) ↔ IsRestorable p
  unfolding restore
  restore_iff p = ground (
    arith,
    IsUuid-iff p.id,
    IsType-iff p.job_type,
    IsStatus-iff p.status,
    validate_payload_iff p.payload,
  )

  pub mark_processing-IsValid :
      (at : Time) (j : Job) → IsValid unmarshal j → IsValid unmarshal (mark_processing at j).1
  unfolding mark_processing
  mark_processing-IsValid at j v = ground (arith, valid_processing)

  pub mark_success-IsValid :
      (at : Time) (j : Job) → IsValid unmarshal j → IsValid unmarshal (mark_success at j).1
  unfolding mark_success
  mark_success-IsValid at j v = ground (arith, valid_success)

  pub mark_failed-IsValid :
      (at : Time) (reason : Text) (j : Job)
      → IsValid unmarshal j
      → IsValid unmarshal (mark_failed at reason j).1
  unfolding mark_failed
  mark_failed-IsValid at reason j v = ground (arith, valid_failed)

  pub record_failure-IsValid :
      (at : Time) (reason : Text) (j : Job)
      → IsValid unmarshal j
      → IsValid unmarshal (record_failure at reason j).1
  unfolding record_failure
  record_failure-IsValid at reason j v = ground (arith, valid_pending, valid_failed)

  -- Restore on the fields of a valid job.
  pub restore_valid :
      (j : Job)
      → IsValid unmarshal j
      → restore unmarshal (record {
        id = j.id;
        job_type = j.job_type;
        status = j.status;
        payload = j.payload;
        retry_count = j.retry_count;
        max_retries = j.max_retries;
        last_error = j.last_error;
        created_at = j.created_at;
        updated_at = j.updated_at;
        started_at = j.started_at;
        completed_at = j.completed_at;
      })
        ≡ ok j
  unfolding restore
  restore_valid j v = ground arith
