-- ===== src/Worker/Dispatcher.antt =====
-- internal/adapters/worker/dispatcher.go: one turn of the loop of Run at a time. What Dequeue
-- returns, and which case a select takes, are inputs.
use async_job_poc.Base.{Bool, true, false, ◌||◌, if◌then◌else◌}
use async_job_poc.Text.{Text, bytes}
use async_job_poc.Errors.{
  Error, foreign, canceled, deadline_exceeded, is, Result, ok, err, ◌>>◌, ensure,
}

-- Where Run stands: in the call of Dequeue, in waitBeforeNextDequeue, in the select that sends an
-- ID, or past its loop, with the channel closed.
pub data DispatcherState : Type 0 where
  dequeuing waiting closed : DispatcherState
  sending : Text → DispatcherState

-- NewDispatcher, for whether the consumer and the logger are there.
unfoldable pub new_dispatcher : Bool → Bool → Result (Unit {0})
new_dispatcher has_consumer has_logger = do
  ensure has_consumer (foreign (bytes "job consumer must not be nil"))
  ensure has_logger (foreign (bytes "logger must not be nil"))

-- dispatcherContextFinished, with whether ctx.Err() != nil
unfoldable pub dispatcher_context_finished : Bool → Error → Bool
dispatcher_context_finished cancelled e = cancelled || is e canceled || is e deadline_exceeded

-- From the return of Dequeue to the next point where Run waits.
unfoldable pub after_dequeue : Bool → Result Text → DispatcherState
after_dequeue cancelled (ok id) = sending id
after_dequeue cancelled (err e) =
    if dispatcher_context_finished cancelled e then closed else waiting

-- waitBeforeNextDequeue ends: the timer fired, or the context is done.
unfoldable pub after_wait : (done : Bool) → DispatcherState
after_wait true = closed
after_wait false = dequeuing
