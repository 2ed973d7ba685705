-- ===== src/Tests/Processing.antt =====
-- Processing and whole histories in the world of the tests.
use async_job_poc.Base.{inr, arith, Bool, ◌≡◌, refl, some, none, pos, [], true, if◌then◌else◌}
use async_job_poc.Text.{bytes, trim_space, to_lower, text_eq}
use async_job_poc.Errors.{message, Error, foreign, FailsAs, job_retry_scheduled}
use async_job_poc.Job.Id
use async_job_poc.Job.Kind
use async_job_poc.Job.Status
use async_job_poc.Job.Payload.{validate_payload}
use async_job_poc.Job.Entity.{Job, new}
use async_job_poc.UseCase.CreateJob.{create_job, submit}
use async_job_poc.UseCase.ProcessJob.{process_job}
use async_job_poc.Job.Transitions.{IsReason, IsTerminal}
use async_job_poc.UseCase.System.{
  Events, start, followed, create, take, process, AreStored, queued-AreStored, terminal_is_final,
}
use async_job_poc.UseCase.ProcessJob.Liveness.{IsReady}
use async_job_poc.UseCase.ProcessJob.Retrying.{IsRetried, process_job-retries}
use async_job_poc.Tests.World.{World, ports, laws, health, an_id}
use async_job_poc.Tests.Jobs.{verbs, one_entry, pending_job}
use async_job_poc.Tests.UseCases.{healthy, empty, input}

abbrev last_job : Job
last_job = record pending_job { retry_count = pos 3 }

abbrev last_try : World
last_try = record healthy { table = λ id. if text_eq id an_id then some last_job else none }

abbrev failed : Error
failed = foreign (bytes "executor is broken")

failed-IsReason : IsReason (message verbs failed)
unfolding message trim_space
failed-IsReason = ground arith

healthy-IsReady :
    (broken : Bool)
    → IsReady verbs (ports broken) (laws broken) (health broken) an_id pending_job healthy
unfolding Id.is_valid text_eq Status.status_pending
healthy-IsReady broken = record {
  valid = refl;
  row = refl;
  same = refl;
  pending = refl;
  past = omega arith;
}

process_job-retries_example :
    FailsAs job_retry_scheduled (process_job verbs (ports true) an_id healthy).0
    × IsRetried verbs
        (ports true)
        (laws true)
        (health true)
        an_id
        pending_job
        failed
        healthy
        (process_job verbs (ports true) an_id healthy).1
process_job-retries_example =
    process_job-retries verbs (ports true) (laws true) (health true) an_id pending_job failed
      healthy (healthy-IsReady true) failed-IsReason refl (λ j w same. refl)

-- A job is created, taken from the queue, and processed by a broken executor.
abbrev taken : World
taken = record (create_job one_entry (ports true) input empty).1 { queue = [] }

create_take_process :
    Events one_entry verbs
      (ports true)
      (laws true)
      empty
      (process_job verbs (ports true) an_id taken).1
unfolding create_job submit new Id.is_valid Kind.parse_type Kind.is_valid validate_payload text_eq
    Kind.type_send_email trim_space to_lower
create_take_process =
    followed (followed (followed start (create input)) (take an_id {w' = taken} (λ o. refl) refl))
      (process an_id)

none_queued : AreStored one_entry verbs (ports true) (laws true) empty
unfolding AreStored
none_queued = tt

queued-AreStored_example :
    AreStored one_entry verbs
      (ports true)
      (laws true)
      (process_job verbs (ports true) an_id taken).1
queued-AreStored_example =
    queued-AreStored one_entry verbs (ports true) (laws true) create_take_process none_queued

abbrev failed_job : Job
failed_job = record last_job { status = bytes "failed" }

abbrev over : World
over = record healthy { table = λ id. if text_eq id an_id then some failed_job else none }

over_stored : over.table an_id ≡ some failed_job
unfolding text_eq
over_stored = refl

failed_job-IsTerminal : IsTerminal failed_job
unfolding Status.status_failed
failed_job-IsTerminal = inr refl

terminal_is_final_example :
    (r : Job) × ((process_job verbs (ports true) an_id over).1.table an_id ≡ some r)
    × (r.status ≡ bytes "failed")
terminal_is_final_example =
    terminal_is_final one_entry verbs (ports true) (laws true) an_id failed_job
      (followed start (process an_id)) over_stored failed_job-IsTerminal
