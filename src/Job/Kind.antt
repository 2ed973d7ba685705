-- ===== src/Job/Kind.antt =====
-- internal/domain/job/type.go. A job type is the text that it wraps, so a value need not be one of
-- the three constants.
pub mod Laws
use async_job_poc.Base.{Bool, ◌||◌, [], ◌∷◌, if◌then◌else◌}
use async_job_poc.Text.{Text, bytes, text_eq, trim_space, to_lower}
use async_job_poc.Errors.{Error, invalid_type, sentinel, wrap, text, quoted, Result, ok, err}

unfoldable pub type_send_email : Text
type_send_email = bytes "send_email"

unfoldable pub type_report_generation : Text
type_report_generation = bytes "report_generation"

unfoldable pub type_data_cleanup : Text
type_data_cleanup = bytes "data_cleanup"

unfoldable pub is_valid : Text → Bool
is_valid t =
    text_eq t type_send_email || text_eq t type_report_generation || text_eq t type_data_cleanup

-- fmt.Errorf("%w: %q", ErrInvalidType, value)
abbrev pub type_error : Text → Error
type_error value = wrap [] (sentinel invalid_type) (text (bytes ": ") ∷ quoted value ∷ [])

unfoldable pub parse_type : Text → Result Text
parse_type value =
    let job_type = to_lower (trim_space value) in
    if is_valid job_type then ok job_type else err (type_error value)
