-- ===== src/Job/Payload.antt =====
-- validatePayload of internal/domain/job/job.go. encoding/json is a parameter: what
-- json.Unmarshal makes of a text as a `map[string]json.RawMessage`.
use async_job_poc.Base.{ℕ, Option, none, some, [], ◌∷◌, length, ◌==◌, if◌then◌else◌}
use async_job_poc.Text.{Text, bytes, trim_space}
use async_job_poc.Errors.{Error, invalid_payload, sentinel, wrap, text}

-- An error with its text, the nil map (of the text `null`), or a map with its number of entries.
pub data Unmarshalled : Type 0 where
  malformed : Text → Unmarshalled
  nil_map : Unmarshalled
  entries : ℕ → Unmarshalled

abbrev pub Unmarshal : Type 0
Unmarshal = Text → Unmarshalled

abbrev pub payload_error : Text → Error
payload_error reason = wrap [] (sentinel invalid_payload) (text reason ∷ [])

unfoldable pub check_object : Unmarshalled → Option Error
check_object (malformed reason) =
    some (wrap [] (sentinel invalid_payload) (text (bytes ": ") ∷ text reason ∷ []))
check_object nil_map = some (payload_error (bytes ": payload must be a JSON object"))
check_object (entries n) =
    if n == 0 then some (payload_error (bytes ": payload must not be empty")) else none

unfoldable pub validate_payload : Unmarshal → Text → Option Error
unfolding check_object
validate_payload unmarshal payload =
    let trimmed = trim_space payload in
    if length trimmed == 0
    then some (payload_error (bytes ": payload is required"))
    else check_object (unmarshal trimmed)
