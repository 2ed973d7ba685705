-- ===== src/Mysql/RoundTrip.antt =====
-- The two mappings of internal/adapters/mysql/job_mapper.go, one after the other.
use async_job_poc.Base.{◌≡◌, ◌≤◌, some, arith, to_nat, max_int}
use async_job_poc.Errors.{wrapped_bind-ok, wrapped-ok, ok, ◌>>=◌}
use async_job_poc.Job.Id.{parse_id}
use async_job_poc.Job.Kind.{parse_type}
use async_job_poc.Job.Status.{parse_status}
use async_job_poc.Job.Id.Laws.{parse_id-valid}
use async_job_poc.Job.Kind.Laws.{parse_type-valid}
use async_job_poc.Job.Status.Laws.{parse_status-valid}
use async_job_poc.Job.Payload.{Unmarshal}
use async_job_poc.Job.Entity.{Job}
use async_job_poc.Job.Valid.{IsValid, restore-IsValid, restore_valid}
use async_job_poc.Mysql.Record.{JobRecord, job_record_from_domain, job_record_to_domain}

module _ (unmarshal : Unmarshal) where
  -- Any entity that satisfies the invariant of the domain maps to a record, and back to itself.
  pub to_domain-from_domain :
      (j : Job)
      → IsValid unmarshal j
      → (job_record_from_domain (some j) >>= job_record_to_domain unmarshal) ≡ ok j
  unfolding job_record_from_domain job_record_to_domain
  to_domain-from_domain j v = ground (
    arith,
    parse_id-valid j.id v.id,
    parse_type-valid j.job_type v.kind,
    parse_status-valid j.status v.status,
    restore_valid unmarshal j v,
  )

  -- An entity that a record maps to satisfies the invariant, if the retry limit is an int.
  pub to_domain-IsValid :
      (row : JobRecord) {j : Job}
      → to_nat row.max_retries ≤ max_int
      → job_record_to_domain unmarshal row ≡ ok j
      → IsValid unmarshal j
  unfolding job_record_to_domain
  to_domain-IsValid row b h =
      let (id, p, h1) = wrapped_bind-ok _ (parse_id row.id) _ h in
      let (job_type, q, h2) = wrapped_bind-ok _ (parse_type row.job_type) _ h1 in
      let (status, r, h3) = wrapped_bind-ok _ (parse_status row.status) _ h2 in
      restore-IsValid unmarshal _ b (wrapped-ok _ _ h3)
