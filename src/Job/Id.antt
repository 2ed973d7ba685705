-- ===== src/Job/Id.antt =====
-- internal/domain/job/id.go. An ID is the text that it wraps. The loop of IsValid ranges over
-- characters with their byte offsets; a byte of 128 or more fails the test of every position, as
-- the character that Go decodes there does (it is 128 or more too), so the model reads bytes.
pub mod Laws
use async_job_poc.Base.{
  ℕ, ◌+◌, Bool, true, false, ◌&&◌, ◌||◌, [], ◌∷◌, length, leb, ◌==◌, if◌then◌else◌,
}
use async_job_poc.Text.{Text, bytes, trim_space}
use async_job_poc.Errors.{Error, invalid_id, sentinel, wrap, text, quoted, Result, ok, err}

unfoldable pub is_hexadecimal : ℕ → Bool
is_hexadecimal c =
    (leb b'0' c && leb c b'9') || (leb b'a' c && leb c b'f') || (leb b'A' c && leb c b'F')

unfoldable pub is_dash_index : ℕ → Bool
is_dash_index i = i == 8 || i == 13 || i == 18 || i == 23

unfoldable pub is_id_byte : ℕ → ℕ → Bool
unfolding is_dash_index
is_id_byte i c = if is_dash_index i then c == b'-' else is_hexadecimal c

unfoldable pub are_id_bytes : ℕ → Text → Bool
are_id_bytes index [] = true
are_id_bytes index (c ∷ s) = is_id_byte index c && are_id_bytes (index + 1) s

unfoldable pub is_valid : Text → Bool
unfolding are_id_bytes is_id_byte is_hexadecimal
is_valid value = if length value == 36 then are_id_bytes 0 value else false

-- fmt.Errorf("%w: %q", ErrInvalidID, value)
abbrev pub id_error : Text → Error
id_error value = wrap [] (sentinel invalid_id) (text (bytes ": ") ∷ quoted value ∷ [])

unfoldable pub parse_id : Text → Result Text
parse_id value =
    let normalized = trim_space value in
    if is_valid normalized then ok normalized else err (id_error value)
