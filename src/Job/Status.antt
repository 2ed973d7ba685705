-- ===== src/Job/Status.antt =====
-- internal/domain/job/status.go. A job status is the text that it wraps, so a value need not be one of
-- the four constants.
pub mod Laws
use async_job_poc.Base.{Bool, ◌||◌, [], ◌∷◌, if◌then◌else◌}
use async_job_poc.Text.{Text, bytes, text_eq, trim_space, to_lower}
use async_job_poc.Errors.{Error, invalid_status, sentinel, wrap, text, quoted, Result, ok, err}

unfoldable pub status_pending : Text
status_pending = bytes "pending"

unfoldable pub status_processing : Text
status_processing = bytes "processing"

unfoldable pub status_success : Text
status_success = bytes "success"

unfoldable pub status_failed : Text
status_failed = bytes "failed"

unfoldable pub is_valid : Text → Bool
is_valid status =
    text_eq status status_pending
    || text_eq status status_processing
    || text_eq status status_success
    || text_eq status status_failed

-- fmt.Errorf("%w: %q", ErrInvalidStatus, value)
abbrev pub status_error : Text → Error
status_error value = wrap [] (sentinel invalid_status) (text (bytes ": ") ∷ quoted value ∷ [])

unfoldable pub parse_status : Text → Result Text
parse_status value =
    let status = to_lower (trim_space value) in
    if is_valid status then ok status else err (status_error value)
