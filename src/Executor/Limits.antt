-- ===== src/Executor/Limits.antt =====
-- Which payloads the handlers accept. Lengths are in bytes.
use async_job_poc.Base.{
  ℕ, ◌≤◌, ℤ, pos, ◌≡◌, ◌↔◌, ◌⊎◌, inl, inr, Option, some, Option-cases, length, arith,
}
use async_job_poc.Text.{Text, bytes}
use async_job_poc.Text.Equality.{text_eq_iff}
use async_job_poc.Errors.{ok}
use async_job_poc.Executor.SendEmail.{SendEmailPayload, validate_send_email_payload}
use async_job_poc.Executor.ReportGeneration.{
  ReportGenerationPayload, validate_report_generation_payload, is_supported_report_format,
}
use async_job_poc.Executor.DataCleanup.{DataCleanupPayload, validate_data_cleanup_payload}

-- 1 ≤ n ≤ max, for an int.
abbrev pub IsBetween : ℕ → ℤ → Type 0
IsBetween max (pos n) = (1 ≤ n) × (n ≤ max)
IsBetween max _ = ⊥

pub record IsDeliverable (parse_address : Text → Option Text) (p : SendEmailPayload) : Type 0 where
  pub to : 1 ≤ length p.to
  pub address : parse_address p.to ≡ some p.to
  pub subject : 1 ≤ length p.subject
  pub short_subject : length p.subject ≤ 200
  pub body : 1 ≤ length p.body

abbrev pub IsReportable : ReportGenerationPayload → Type 0
IsReportable p =
    (1 ≤ length p.report)
    × (length p.report ≤ 100)
    × ((p.format ≡ bytes "csv") ⊎ ((p.format ≡ bytes "json") ⊎ (p.format ≡ bytes "pdf")))

abbrev pub IsCleanable : DataCleanupPayload → Type 0
IsCleanable p = (1 ≤ length p.scope) × (length p.scope ≤ 100) × IsBetween 3650 p.older_than_days

-- A mail payload is accepted exactly if its recipient is its own parsed address, its subject has 1
-- to 200 bytes and its body is not empty.
send_email_iff :
    (parse_address : Text → Option Text) (p : SendEmailPayload)
    → (validate_send_email_payload parse_address p ≡ ok tt) ↔ IsDeliverable parse_address p
unfolding validate_send_email_payload
send_email_iff parse_address p = elim (Option-cases (parse_address p.to)) [
  | inl none_found ↦ ground arith
  | inr (address, found) ↦ ground (arith, text_eq_iff address p.to)
]

-- A report payload is accepted exactly if its name has 1 to 100 bytes and its format is csv, json
-- or pdf.
report_generation_iff :
    (p : ReportGenerationPayload) → (validate_report_generation_payload p ≡ ok tt) ↔ IsReportable p
unfolding validate_report_generation_payload is_supported_report_format
report_generation_iff p = ground (
  arith,
  text_eq_iff p.format (bytes "csv"),
  text_eq_iff p.format (bytes "json"),
  text_eq_iff p.format (bytes "pdf"),
)

-- A cleanup payload is accepted exactly if its scope has 1 to 100 bytes and its age is 1 to 3650
-- days.
data_cleanup_iff :
    (p : DataCleanupPayload) → (validate_data_cleanup_payload p ≡ ok tt) ↔ IsCleanable p
unfolding validate_data_cleanup_payload
data_cleanup_iff p = ground arith

-- The handlers accept a payload exactly within these limits. A mail: the recipient is its own parsed
-- address, the subject has 1 to 200 bytes, the body is not empty. A report: the name has 1 to 100
-- bytes, the format is csv, json or pdf. A cleanup: the scope has 1 to 100 bytes, the age is 1 to
-- 3650 days.
pub payload_limits :
    (parse_address : Text → Option Text) (email : SendEmailPayload)
    (report : ReportGenerationPayload) (cleanup : DataCleanupPayload)
    → ((validate_send_email_payload parse_address email ≡ ok tt)
        ↔ IsDeliverable parse_address email)
      × ((validate_report_generation_payload report ≡ ok tt) ↔ IsReportable report)
      × ((validate_data_cleanup_payload cleanup ≡ ok tt) ↔ IsCleanable cleanup)
payload_limits parse_address email report cleanup =
    (send_email_iff parse_address email, report_generation_iff report, data_cleanup_iff cleanup)
