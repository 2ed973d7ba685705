-- ===== src/UseCase/CreateJob.antt =====
-- internal/application/usecase/create_job.go
pub mod Laws
pub mod Publishing
pub mod Liveness
use async_job_poc.Base.{String, List, [], ◌∷◌}
use async_job_poc.Text.{Text, bytes}
use async_job_poc.Errors.{Error, Piece, text, Result}
use async_job_poc.Job.Kind.{parse_type}
use async_job_poc.Job.Payload.{Unmarshal}
use async_job_poc.Job.Entity.{Job, new}
use async_job_poc.UseCase.Action.{Action, pure, call, or_fail, ◌>>=◌, ◌>>◌, prefix}
use async_job_poc.UseCase.Ports.{Ports}

pub record CreateJobInput : Type 0 where
  pub job_type : Text
  pub payload : Text

-- A message prefix that is only text.
abbrev pub says : String → Error → Error
says s = prefix (text (bytes s) ∷ [])

module _ {W : Type 0} (unmarshal : Unmarshal) (ports : Ports W) where
  -- The part of Execute after the entity is made.
  unfoldable pub submit : Job → Action W Job
  submit entity = do
    or_fail (says "persist job: ") (ports.repository.create entity)
    call (ports.status_persisted entity [])
    or_fail
        (prefix (text (bytes "publish job ") ∷ text entity.id ∷ text (bytes " to queue: ") ∷ []))
        (ports.enqueue entity.id)
    pure entity

  -- CreateJob.Execute
  unfoldable pub create_job : CreateJobInput → Action W Job
  create_job input = do
    job_type ← or_fail (says "validate job type: ") (λ w. (parse_type input.job_type, w))
    id ← or_fail (says "generate job ID: ") ports.new_id
    created_at ← call ports.now
    entity ← or_fail (says "create job: ") (λ w. (
      new unmarshal (record {
        id = id;
        job_type = job_type;
        payload = input.payload;
        created_at = created_at;
      }),
      w,
    ))
    submit entity
