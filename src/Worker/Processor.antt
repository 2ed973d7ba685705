-- ===== src/Worker/Processor.antt =====
-- internal/adapters/worker/processor_worker.go: one turn of the loop of Run at a time. What Execute
-- returns, and which case the select takes, are inputs.
use async_job_poc.Base.{ℤ, pos, Bool, Option, none, some, ltb_ℤ, if◌then◌else◌}
use async_job_poc.Text.{Text, bytes}
use async_job_poc.Errors.{
  foreign, job_retry_scheduled, job_retries_exhausted, is, Result, ok, err, ◌>>◌, ensure,
}
use async_job_poc.UseCase.Action.{Action}
use async_job_poc.Logging.{Level, info, warn, error}

-- JobProcessor: Execute on an ID, which ProcessJob implements.
abbrev pub JobProcessor : Type 0 → Type 0
JobProcessor W = Text → Action W (Unit {0})

-- Where Run stands: in the select, in the call of Execute, or returned.
pub data WorkerState : Type 0 where
  receiving stopped : WorkerState
  processing : Text → WorkerState

-- NewProcessorWorker: its ID, and whether the processor and the logger are there.
unfoldable pub new_processor_worker : ℤ → Bool → Bool → Result ℤ
new_processor_worker id has_processor has_logger = do
  ensure (ltb_ℤ (pos 0) id) (foreign (bytes "worker ID must be greater than zero"))
  ensure has_processor (foreign (bytes "job processor must not be nil"))
  ensure has_logger (foreign (bytes "logger must not be nil"))
  ok id

-- The level and the message of the record that is logged when Execute returns.
unfoldable pub report : Result (Unit {0}) → Level × Text
report (ok _) = (info, bytes "job processing completed")
report (err e) =
    if is e job_retry_scheduled
    then (warn, bytes "job retry scheduled")
    else if is e job_retries_exhausted
    then (error, bytes "job retries exhausted")
    else (error, bytes "job processing failed")

-- From the return of Execute to the next point where Run waits, with whether ctx.Err() != nil.
unfoldable pub after_execute : Bool → Result (Unit {0}) → WorkerState
after_execute cancelled (ok _) = receiving
after_execute cancelled (err e) = if cancelled then stopped else receiving

-- The select of Run: `some id` if it receives, `none` if the context is done or the channel closed.
unfoldable pub after_select : Option Text → WorkerState
after_select none = stopped
after_select (some id) = processing id
