-- ===== src/Tests/UseCases.antt =====
-- The use cases in the world of the tests.
use async_job_poc.Base.{
  arith, ◌≡◌, refl, some, none, pos, [], ◌∷◌, true, false, ◌⊎◌, if◌then◌else◌, Option,
}
use async_job_poc.Text.{Text, bytes, trim_space, to_lower, text_eq}
use async_job_poc.Errors.{ok, message}
use async_job_poc.Job.Id
use async_job_poc.Job.Kind
use async_job_poc.Job.Status
use async_job_poc.Job.Payload.{validate_payload}
use async_job_poc.Job.Entity.{Job, new}
use async_job_poc.Job.Lifecycle.{mark_processing, mark_success, record_failure}
use async_job_poc.UseCase.CreateJob.{CreateJobInput, create_job, submit}
use async_job_poc.UseCase.CreateJob.Laws.{IsFresh, IsPublished}
use async_job_poc.UseCase.CreateJob.Publishing.{create_job-ok, create_job-safe, QueuedFresh}
use async_job_poc.UseCase.ProcessJob.{
  process_job, load_and_run, run, complete, save, handle_execution_failure, persist_failure,
  publish,
}
use async_job_poc.UseCase.ProcessJob.Safety.{Processed, process_job-Processed}
use async_job_poc.UseCase.ProcessJob.Completion.{IsCompleted, process_job-ok}
use async_job_poc.UseCase.CreateJob.Liveness.{create_job-succeeds}
use async_job_poc.Tests.World.{World, ports, laws, an_id, at}
use async_job_poc.Tests.Jobs.{verbs, one_entry, pending_job}

abbrev pub table : Text → Option Job
table id = if text_eq id an_id then some pending_job else none

abbrev pub healthy : World
healthy = record { table = table; queue = []; runs = 0; clock = 1 }

abbrev pub empty : World
empty = record healthy { table = λ id. none; clock = 0 }

abbrev pub input : CreateJobInput
input = record { job_type = bytes " Send_Email"; payload = bytes "{}" }

created : (create_job one_entry (ports false) input empty).0 ≡ ok pending_job
unfolding create_job submit new Id.is_valid Kind.parse_type Kind.is_valid validate_payload text_eq
    Kind.type_send_email trim_space Status.status_pending to_lower
created = refl

create_job-ok_example :
    IsFresh one_entry (ports false) (laws false) pending_job
    × IsPublished one_entry
        (ports false)
        (laws false)
        pending_job
        empty
        (create_job one_entry (ports false) input empty).1
create_job-ok_example = create_job-ok one_entry (ports false) (laws false) input empty created

create_job-safe_example :
    ((create_job one_entry (ports false) input empty).1.queue ≡ [])
    ⊎ QueuedFresh one_entry
        (ports false)
        (laws false)
        empty
        (create_job one_entry (ports false) input empty).1
create_job-safe_example = create_job-safe one_entry (ports false) (laws false) input empty

processed : (process_job verbs (ports false) an_id healthy).0 ≡ ok tt
unfolding process_job load_and_run run complete save Id.is_valid text_eq mark_processing
    mark_success Status.status_pending Status.status_processing
processed = refl

process_job-ok_example :
    IsCompleted verbs
      (ports false)
      (laws false)
      an_id
      healthy
      (process_job verbs (ports false) an_id healthy).1
process_job-ok_example = process_job-ok verbs (ports false) (laws false) an_id healthy processed

-- An executor that is broken: the job is pending again, with one retry used, and queued.
retried :
    ((process_job verbs (ports true) an_id healthy).1.queue ≡ an_id ∷ [])
    × ((process_job verbs (ports true) an_id healthy).1.table an_id
        ≡ some (record pending_job {
          retry_count = pos 1;
          last_error = some (bytes "executor is broken");
          updated_at = at 3;
          started_at = some (at 2);
        }))
unfolding process_job load_and_run run save handle_execution_failure persist_failure publish
    Id.is_valid text_eq mark_processing record_failure Status.status_pending
    Status.status_processing trim_space message
retried = (refl, refl)

process_job-Processed_example :
    Processed verbs
      (ports true)
      (laws true)
      an_id
      healthy
      (process_job verbs (ports true) an_id healthy).1
process_job-Processed_example = process_job-Processed verbs (ports true) (laws true) an_id healthy

parsed : Kind.parse_type input.job_type ≡ ok (bytes "send_email")
unfolding Kind.parse_type Kind.is_valid text_eq Kind.type_send_email trim_space to_lower
parsed = refl

accepted : validate_payload one_entry input.payload ≡ none
unfolding validate_payload trim_space
accepted = refl

an_id-is_valid : Id.is_valid an_id ≡ true
unfolding Id.is_valid
an_id-is_valid = refl

create_job-succeeds_example :
    (j : Job) × ((create_job one_entry (ports false) input empty).0 ≡ ok j) × (j.id ≡ an_id)
create_job-succeeds_example =
    create_job-succeeds one_entry (ports false) (laws false) input empty parsed accepted refl
      an_id-is_valid (λ e. absurd (omega arith)) (λ j same. refl) (λ w. refl)
