-- ===== src/Executor/DataCleanup.antt =====
-- internal/adapters/executor/data_cleanup.go
use async_job_poc.Base.{
  ℕ, ℤ, Bool, not, none, some, [], ◌∷◌, length, ltb, ltb_ℤ, pos, if◌then◌else◌,
}
use async_job_poc.Text.{Text, bytes, text_eq, trim_space}
use async_job_poc.Errors.{
  sentinel, foreign, wrap, text, unexpected_job_type, Result, ok, ◌>>=◌, ◌>>◌, ensure,
}
use async_job_poc.Job.Kind.{type_data_cleanup}
use async_job_poc.Job.Entity.{Job}
use async_job_poc.UseCase.Action
use async_job_poc.UseCase.Action.{Action, fail, or_fail}
use async_job_poc.UseCase.ProcessJob.{about}
use async_job_poc.Executor.Payload.{
  Handler, Wait, Stream, payload_error, decode_strict_payload, is_empty, check_handler,
}

abbrev pub maximum_cleanup_scope_length : ℕ
maximum_cleanup_scope_length = 100

abbrev pub maximum_cleanup_age_days : ℕ
maximum_cleanup_age_days = 3650

pub record DataCleanupPayload : Type 0 where
  pub scope : Text
  pub older_than_days : ℤ

-- NewDataCleanupHandler
unfoldable pub new_data_cleanup_handler : ℤ → Bool → Result ℤ
unfolding check_handler
new_data_cleanup_handler processing_duration has_logger =
    check_handler processing_duration has_logger

-- validateDataCleanupPayload
unfoldable pub validate_data_cleanup_payload : DataCleanupPayload → Result (Unit {0})
validate_data_cleanup_payload payload = do
  ensure (not (is_empty payload.scope)) (payload_error ": scope is required")
  ensure (not (ltb maximum_cleanup_scope_length (length payload.scope)))
      (payload_error ": scope must not exceed 100 characters")
  ensure (ltb_ℤ (pos 0) payload.older_than_days)
      (payload_error ": older_than_days must be greater than zero")
  ensure (not (ltb_ℤ (pos maximum_cleanup_age_days) payload.older_than_days))
      (payload_error ": older_than_days must not exceed 3650")
  ok tt

-- decodeDataCleanupPayload
unfoldable pub decode_data_cleanup_payload : Stream DataCleanupPayload → Result DataCleanupPayload
decode_data_cleanup_payload s = do
  decoded ← decode_strict_payload s
  let payload : DataCleanupPayload = record {
    scope = trim_space decoded.scope;
    older_than_days = decoded.older_than_days;
  }
  validate_data_cleanup_payload payload
  ok payload

module _ {W : Type 0} (decode : Text → Stream DataCleanupPayload) (wait : Wait W) where
  -- Handle on a job of its own type.
  clean : ℤ → Job → Action W (Unit {0})
  clean processing_duration entity =
      Action.◌>>=◌
        (or_fail (about "decode data-cleanup job " entity.id ": ")
          (λ w. (decode_data_cleanup_payload (decode entity.payload), w)))
        (λ payload. or_fail (about "clean data for job " entity.id ": ") (wait processing_duration))

  -- DataCleanupHandler.Handle
  unfoldable pub handle_data_cleanup : ℤ → Handler W
  unfolding clean
  handle_data_cleanup processing_duration none = fail (foreign (bytes "job must not be nil"))
  handle_data_cleanup processing_duration (some entity) =
      if text_eq entity.job_type type_data_cleanup
      then clean processing_duration entity
      else fail (
          wrap [] (sentinel unexpected_job_type)
            (text (bytes ": data-cleanup handler received ") ∷ text entity.job_type ∷ []))
