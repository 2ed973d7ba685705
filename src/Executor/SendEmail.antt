-- ===== src/Executor/SendEmail.antt =====
-- internal/adapters/executor/send_email.go. net/mail is a parameter: the address that
-- mail.ParseAddress finds in a text, if it parses.
use async_job_poc.Base.{
  ℕ, ℤ, Bool, false, not, Option, none, some, [], ◌∷◌, length, ltb, if◌then◌else◌,
}
use async_job_poc.Text.{Text, bytes, text_eq, trim_space}
use async_job_poc.Errors.{
  sentinel, foreign, wrap, text, unexpected_job_type, Result, ok, ◌>>=◌, ◌>>◌, ensure,
}
use async_job_poc.Job.Kind.{type_send_email}
use async_job_poc.Job.Entity.{Job}
use async_job_poc.UseCase.Action
use async_job_poc.UseCase.Action.{Action, fail, or_fail}
use async_job_poc.UseCase.ProcessJob.{about}
use async_job_poc.Executor.Payload.{
  Handler, Wait, Stream, payload_error, decode_strict_payload, is_empty, check_handler,
}

abbrev pub maximum_email_subject_length : ℕ
maximum_email_subject_length = 200

pub record SendEmailPayload : Type 0 where
  pub to : Text
  pub subject : Text
  pub body : Text

-- NewSendEmailHandler
unfoldable pub new_send_email_handler : ℤ → Bool → Result ℤ
unfolding check_handler
new_send_email_handler processing_duration has_logger = check_handler processing_duration has_logger

-- `err == nil && parsedAddress.Address == to`
abbrev pub is_address : Option Text → Text → Bool
is_address none to = false
is_address (some address) to = text_eq address to

module _ (parse_address : Text → Option Text) where
  -- validateSendEmailPayload
  unfoldable pub validate_send_email_payload : SendEmailPayload → Result (Unit {0})
  validate_send_email_payload payload = do
    ensure (not (is_empty payload.to)) (payload_error ": to is required")
    ensure (is_address (parse_address payload.to) payload.to)
        (payload_error ": to must be a valid email address")
    ensure (not (is_empty payload.subject)) (payload_error ": subject is required")
    ensure (not (ltb maximum_email_subject_length (length payload.subject)))
        (payload_error ": subject must not exceed 200 characters")
    ensure (not (is_empty payload.body)) (payload_error ": body is required")
    ok tt

  -- decodeSendEmailPayload
  unfoldable pub decode_send_email_payload : Stream SendEmailPayload → Result SendEmailPayload
  decode_send_email_payload s = do
    decoded ← decode_strict_payload s
    let payload : SendEmailPayload = record {
      to = trim_space decoded.to;
      subject = trim_space decoded.subject;
      body = trim_space decoded.body;
    }
    validate_send_email_payload payload
    ok payload

  module _ {W : Type 0} (decode : Text → Stream SendEmailPayload) (wait : Wait W) where
    -- Handle on a job of its own type.
    deliver : ℤ → Job → Action W (Unit {0})
    deliver processing_duration entity =
        Action.◌>>=◌
          (or_fail (about "decode send-email job " entity.id ": ")
            (λ w. (decode_send_email_payload (decode entity.payload), w)))
          (λ payload.
            or_fail (about "deliver email for job " entity.id ": ") (wait processing_duration))

    -- SendEmailHandler.Handle
    unfoldable pub handle_send_email : ℤ → Handler W
    unfolding deliver
    handle_send_email processing_duration none = fail (foreign (bytes "job must not be nil"))
    handle_send_email processing_duration (some entity) =
        if text_eq entity.job_type type_send_email
        then deliver processing_duration entity
        else fail (
            wrap [] (sentinel unexpected_job_type)
              (text (bytes ": send-email handler received ") ∷ text entity.job_type ∷ []))
