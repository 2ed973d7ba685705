-- ===== src/Executor/ReportGeneration.antt =====
-- internal/adapters/executor/report_generation.go
use async_job_poc.Base.{ℕ, ℤ, Bool, not, ◌||◌, none, some, [], ◌∷◌, length, ltb, if◌then◌else◌}
use async_job_poc.Text.{Text, bytes, text_eq, trim_space, to_lower}
use async_job_poc.Errors.{
  sentinel, foreign, wrap, text, unexpected_job_type, Result, ok, ◌>>=◌, ◌>>◌, ensure,
}
use async_job_poc.Job.Kind.{type_report_generation}
use async_job_poc.Job.Entity.{Job}
use async_job_poc.UseCase.Action
use async_job_poc.UseCase.Action.{Action, fail, or_fail}
use async_job_poc.UseCase.ProcessJob.{about}
use async_job_poc.Executor.Payload.{
  Handler, Wait, Stream, payload_error, decode_strict_payload, is_empty, check_handler,
}

abbrev pub maximum_report_name_length : ℕ
maximum_report_name_length = 100

pub record ReportGenerationPayload : Type 0 where
  pub report : Text
  pub format : Text

-- NewReportGenerationHandler
unfoldable pub new_report_generation_handler : ℤ → Bool → Result ℤ
unfolding check_handler
new_report_generation_handler processing_duration has_logger =
    check_handler processing_duration has_logger

-- isSupportedReportFormat
unfoldable pub is_supported_report_format : Text → Bool
is_supported_report_format format =
    text_eq format (bytes "csv") || text_eq format (bytes "json") || text_eq format (bytes "pdf")

-- validateReportGenerationPayload
unfoldable pub validate_report_generation_payload : ReportGenerationPayload → Result (Unit {0})
validate_report_generation_payload payload = do
  ensure (not (is_empty payload.report)) (payload_error ": report is required")
  ensure (not (ltb maximum_report_name_length (length payload.report)))
      (payload_error ": report must not exceed 100 characters")
  ensure (not (is_empty payload.format)) (payload_error ": format is required")
  ensure (is_supported_report_format payload.format)
      (payload_error ": format must be csv, json, or pdf")
  ok tt

-- decodeReportGenerationPayload
unfoldable pub decode_report_generation_payload :
    Stream ReportGenerationPayload → Result ReportGenerationPayload
decode_report_generation_payload s = do
  decoded ← decode_strict_payload s
  let payload : ReportGenerationPayload = record {
    report = trim_space decoded.report;
    format = to_lower (trim_space decoded.format);
  }
  validate_report_generation_payload payload
  ok payload

module _ {W : Type 0} (decode : Text → Stream ReportGenerationPayload) (wait : Wait W) where
  -- Handle on a job of its own type.
  generate : ℤ → Job → Action W (Unit {0})
  generate processing_duration entity =
      Action.◌>>=◌
        (or_fail (about "decode report-generation job " entity.id ": ")
          (λ w. (decode_report_generation_payload (decode entity.payload), w)))
        (λ payload.
          or_fail (about "generate report for job " entity.id ": ") (wait processing_duration))

  -- ReportGenerationHandler.Handle
  unfoldable pub handle_report_generation : ℤ → Handler W
  unfolding generate
  handle_report_generation processing_duration none = fail (foreign (bytes "job must not be nil"))
  handle_report_generation processing_duration (some entity) =
      if text_eq entity.job_type type_report_generation
      then generate processing_duration entity
      else fail (
          wrap [] (sentinel unexpected_job_type)
            (text (bytes ": report-generation handler received ") ∷ text entity.job_type ∷ []))
