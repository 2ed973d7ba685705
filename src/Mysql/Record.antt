-- ===== src/Mysql/Record.antt =====
-- internal/adapters/mysql/job_model.go and job_mapper.go. A *job.Job that may be nil is an option.
use async_job_poc.Base.{ℤ, Option, none, some, [], ◌∷◌}
use async_job_poc.Text.{Text, bytes}
use async_job_poc.Time.{Time}
use async_job_poc.Errors.{Error, foreign, text, Result, ok, err, wrapped, ◌>>=◌}
use async_job_poc.Job.Id.{parse_id}
use async_job_poc.Job.Kind.{parse_type}
use async_job_poc.Job.Status.{parse_status}
use async_job_poc.Job.Payload.{Unmarshal}
use async_job_poc.Job.Entity.{Job, restore}

pub record JobRecord : Type 0 where
  pub id : Text
  pub job_type : Text
  pub status : Text
  pub payload : Text
  pub retry_count : ℤ
  pub max_retries : ℤ
  pub last_error : Option Text
  pub created_at : Time
  pub updated_at : Time
  pub started_at : Option Time
  pub completed_at : Option Time

pub nil_job_error : Error
nil_job_error = foreign (bytes "job must not be nil")

-- jobRecordFromDomain
unfoldable pub job_record_from_domain : Option Job → Result JobRecord
unfolding nil_job_error
job_record_from_domain none = err nil_job_error
job_record_from_domain (some entity) = ok (record {
  id = entity.id;
  job_type = entity.job_type;
  status = entity.status;
  payload = entity.payload;
  retry_count = entity.retry_count;
  max_retries = entity.max_retries;
  last_error = entity.last_error;
  created_at = entity.created_at;
  updated_at = entity.updated_at;
  started_at = entity.started_at;
  completed_at = entity.completed_at;
})

-- jobRecordToDomain
unfoldable pub job_record_to_domain : Unmarshal → JobRecord → Result Job
job_record_to_domain unmarshal row = do
  id ← wrapped (text (bytes "map persisted job ID: ") ∷ []) (parse_id row.id)
  job_type ← wrapped (text (bytes "map persisted job type: ") ∷ []) (parse_type row.job_type)
  status ← wrapped (text (bytes "map persisted job status: ") ∷ []) (parse_status row.status)
  wrapped (text (bytes "restore persisted job: ") ∷ []) (
      restore unmarshal (record {
        id = id;
        job_type = job_type;
        status = status;
        payload = row.payload;
        retry_count = row.retry_count;
        max_retries = row.max_retries;
        last_error = row.last_error;
        created_at = row.created_at;
        updated_at = row.updated_at;
        started_at = row.started_at;
        completed_at = row.completed_at;
      }))
