-- ===== src/Redis.antt =====
-- internal/adapters/redis/job_queue.go. Redis is a parameter: the two commands that the queue uses.
pub mod Fifo
pub mod Options
pub mod Connection
use async_job_poc.Base.{
  ℕ, Bool, ◌||◌, List, [], ◌∷◌, length, ◌==◌, ltb_ℤ, ℤ, pos, not, if◌then◌else◌,
}
use async_job_poc.Text.{Text, bytes, trim_space}
use async_job_poc.Errors.{
  Error, sentinel, foreign, wrap, wrap_two, text, number, quoted, invalid_id, job_queue_unavailable,
  canceled, deadline_exceeded, is, Result, ok, err, ensure, ◌>>◌,
}
use async_job_poc.Job.Id
use async_job_poc.Job.Id.{parse_id}
use async_job_poc.UseCase.Action.{Action, pure, fail, or_fail, ◌>>=◌, prefix}

pub record Client (W : Type 0) : Type 0 where
  -- LPush(ctx, list, value)
  pub lpush : Text → Text → Action W (Unit {0})
  -- BRPop(ctx, 0, list): the list's name and the value that is popped
  pub brpop : Text → Action W (List Text)

-- NewJobQueue, for whether the client is there: the name that the queue uses.
unfoldable pub new_job_queue : Bool → Text → Result Text
new_job_queue has_client queue_name = do
  ensure has_client (foreign (bytes "Redis client must not be nil"))
  let normalized = trim_space queue_name
  ensure (not (length normalized == 0)) (foreign (bytes "Redis queue name must not be empty"))
  ok normalized

module _ {W : Type 0} (client : Client W) (queue_name : Text) where
  -- JobQueue.Enqueue
  unfoldable pub enqueue : Text → Action W (Unit {0})
  enqueue id =
      if Id.is_valid id
      then or_fail
          (wrap_two (sentinel job_queue_unavailable)
            (text (bytes ": enqueue job ") ∷ text id ∷ text (bytes ": ") ∷ []))
          (client.lpush queue_name id)
      else fail (wrap [] (sentinel invalid_id) (text (bytes ": ") ∷ quoted id ∷ []))

  pop_error : Error → Error
  pop_error e =
      if is e canceled || is e deadline_exceeded
      then e
      else wrap_two (sentinel job_queue_unavailable)
          (text (bytes ": dequeue from ") ∷ text queue_name ∷ text (bytes ": ") ∷ []) e

  -- The checks of Dequeue on the response.
  parse_response : List Text → Result Text
  parse_response (_ ∷ value ∷ []) = elim (parse_id value) [
    | ok id ↦ ok id
    | err e ↦ err (
        prefix
          (text (bytes "invalid job ID received from queue ")
            ∷ text queue_name
            ∷ text (bytes ": ")
            ∷ [])
          e)
  ]
  parse_response result = err (
      wrap [] (sentinel job_queue_unavailable)
        (text (bytes ": unexpected Redis response length ") ∷ number (pos (length result)) ∷ []))

  -- JobQueue.Dequeue
  unfoldable pub dequeue : Action W Text
  unfolding pop_error parse_response
  dequeue = do result ← or_fail pop_error (client.brpop queue_name); λ w. (parse_response result, w)
