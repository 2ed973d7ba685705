-- ===== src/UseCase/ProcessJob.antt =====
-- internal/application/usecase/process_job.go
pub mod Effects
pub mod Failures
pub mod Running
pub mod Safety
pub mod Completion
pub mod Liveness
pub mod Retrying
use async_job_poc.Base.{String, Option, none, some, List, [], ◌∷◌, if◌then◌else◌}
use async_job_poc.Text.{Text, bytes}
use async_job_poc.Errors.{
  Error, Piece, text, number, quoted, sentinel, wrap, join, invalid_id, job_retry_scheduled,
  job_retries_exhausted, Verbs, message, Result, ok, err,
}
use async_job_poc.Job.Id
use async_job_poc.Job.Entity.{Job}
use async_job_poc.Job.Lifecycle.{
  FailureOutcome, retry_scheduled, terminal_failure, mark_processing, mark_success, record_failure,
}
use async_job_poc.UseCase.Action.{Action, pure, fail, call, or_fail, outcome, ◌>>=◌, ◌>>◌, prefix}
use async_job_poc.UseCase.Ports.{Ports}

-- `<before><id><after>%w`
abbrev pub about : String → Text → String → Error → Error
about before id after = prefix (text (bytes before) ∷ text id ∷ text (bytes after) ∷ [])

-- fmt.Errorf("execute job %s: %w", jobID, executionError)
abbrev pub execute_error : Text → Error → Error
execute_error id = about "execute job " id ": "

module _ {W : Type 0} (verbs : Verbs) (ports : Ports W) where
  -- The switch at the end of handleExecutionFailure; it has a case for each outcome.
  unfoldable pub publish : Job → Error → FailureOutcome → Action W (Unit {0})
  publish entity failure retry_scheduled = do
    or_fail
        (λ e. join (execute_error entity.id failure) (
          prefix
            (text (bytes "enqueue retry ")
              ∷ number entity.retry_count
              ∷ text (bytes " of ")
              ∷ number entity.max_retries
              ∷ text (bytes " for job ")
              ∷ text entity.id
              ∷ text (bytes ": ")
              ∷ [])
            e))
        (ports.enqueue entity.id)
    fail (
        join
          (wrap [] (sentinel job_retry_scheduled) (
            text (bytes ": job ")
            ∷ text entity.id
            ∷ text (bytes " retry ")
            ∷ number entity.retry_count
            ∷ text (bytes " of ")
            ∷ number entity.max_retries
            ∷ []))
          (execute_error entity.id failure))
  publish entity failure terminal_failure = fail (
      join
        (wrap [] (sentinel job_retries_exhausted) (
          text (bytes ": job ")
          ∷ text entity.id
          ∷ text (bytes " failed after ")
          ∷ number entity.retry_count
          ∷ text (bytes " retries")
          ∷ []))
        (execute_error entity.id failure))

  -- handleExecutionFailure after RecordFailure returned `recorded` and left `entity`.
  unfoldable pub persist_failure : Text → Error → Result FailureOutcome × Job → Action W (Unit {0})
  persist_failure previous_status failure (err e, entity) =
      fail
        (join (execute_error entity.id failure) (about "record failure for job " entity.id ": " e))
  persist_failure previous_status failure (ok settled, entity) = do
    or_fail
        (λ e.
          join (execute_error entity.id failure)
            (about "persist failure state for job " entity.id ": " e))
        (ports.repository.update entity)
    call (ports.status_persisted entity previous_status)
    publish entity failure settled

  unfoldable pub handle_execution_failure : Job → Error → Action W (Unit {0})
  handle_execution_failure entity failure = do
    now ← call ports.now
    persist_failure entity.status failure (record_failure now (message verbs failure) entity)

  -- A transition of the entity by MarkProcessing or MarkSuccess, with its result and the entity
  -- that it left, and the update and the observation that follow it in Execute.
  unfoldable pub save : (Error → Error) → (Error → Error) → Text → Option Error × Job → Action W Job
  save mark_error persist_error previous_status (some e, entity) = fail (mark_error e)
  save mark_error persist_error previous_status (none, entity) = do
    or_fail persist_error (ports.repository.update entity)
    call (ports.status_persisted entity previous_status)
    pure entity

  -- ProcessJob.Execute after the executor succeeded.
  unfoldable pub complete : Text → Job → Action W (Unit {0})
  complete id entity = do
    now ← call ports.now
    done ←
        save (about "mark job " id " as successful: ")
          (about "persist successful status for job " id ": ") entity.status
          (mark_success now entity)
    pure tt

  -- The executor's result, and what follows from it.
  unfoldable pub run : Text → Job → Action W (Unit {0})
  run id entity = do
    result ← outcome (ports.execute entity)
    elim result [
      | ok _ ↦ complete id entity
      | err failure ↦ handle_execution_failure entity failure
    ]

  -- ProcessJob.Execute on a valid ID.
  unfoldable pub load_and_run : Text → Action W (Unit {0})
  load_and_run id = do
    entity ← or_fail (about "load job " id ": ") (ports.repository.get_by_id id)
    now ← call ports.now
    started ←
        save (about "mark job " id " as processing: ")
          (about "persist processing status for job " id ": ") entity.status
          (mark_processing now entity)
    run id started

  -- ProcessJob.Execute
  unfoldable pub process_job : Text → Action W (Unit {0})
  process_job id =
      if Id.is_valid id
      then load_and_run id
      else fail (
          wrap (text (bytes "validate job ID: ") ∷ []) (sentinel invalid_id)
            (text (bytes ": ") ∷ quoted id ∷ []))
