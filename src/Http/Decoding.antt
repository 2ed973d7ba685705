-- ===== src/Http/Decoding.antt =====
-- internal/adapters/http/handler/job_handler.go: decodeCreateJobRequest. The parser of media types
-- and the JSON decoder over a limited body are parameters.
use async_job_poc.Base.{ℕ, Bool, false, String, ◌⊎◌, inl, inr, not, if◌then◌else◌}
use async_job_poc.Text.{Text, bytes}
use async_job_poc.Errors.{Error, is, eof, max_bytes, Result, ok, err}
use async_job_poc.Http.Fold.{equal_fold}

abbrev pub max_create_job_body_bytes : ℕ
max_create_job_body_bytes = 1048576

-- createJobRequest
pub record CreateJobRequest : Type 0 where
  pub job_type : Text
  pub payload : Text

-- A request: the path of its URL, its headers Content-Type and X-Request-ID, its body, and the value
-- of the path parameter `jobID`.
pub record Request : Type 0 where
  pub path : Text
  pub request_id : Text
  pub content_type : Text
  pub body : Text
  pub job_id : Text

-- mime.ParseMediaType, the media type only; and the first and the second call of Decode on a body,
-- unknown fields disallowed, of which no more than a number of bytes can be read.
pub record Decoder : Type 0 where
  pub parse_media_type : Text → Result Text
  pub decode : (limit : ℕ) (body : Text) → Result CreateJobRequest
  pub decode_next : (limit : ℕ) (body : Text) → Result (Unit {0})

-- requestDecodeError
pub record RequestDecodeError : Type 0 where
  pub status : ℕ
  pub code : Text
  pub message : Text

refusal : ℕ → (code message : String) → RequestDecodeError
refusal status code message = record { status = status; code = bytes code; message = bytes message }

unfoldable pub unsupported_media_type : RequestDecodeError
unfolding refusal
unsupported_media_type =
    refusal 415 "unsupported_media_type" "Content-Type must be application/json"

-- The switch on the error of the first Decode.
unfoldable pub decode_error : Error → RequestDecodeError
unfolding refusal
decode_error e =
    if is e eof
    then refusal 400 "invalid_request" "request body is required"
    else if is e max_bytes
    then refusal 413 "request_too_large" "request body exceeds 1 MiB"
    else refusal 400 "invalid_request" "request body must contain valid job JSON"

unfoldable pub more_than_one : RequestDecodeError
unfolding refusal
more_than_one = refusal 400 "invalid_request" "request body must contain one JSON object"

-- Whether the error of a Decode is io.EOF.
abbrev pub is_at_end : Result (Unit {0}) → Bool
is_at_end (ok _) = false
is_at_end (err e) = is e eof

abbrev pub is_json : Result Text → Bool
is_json (ok media_type) = equal_fold media_type (bytes "application/json")
is_json (err _) = false

-- decodeCreateJobRequest
unfoldable pub decode_create_job_request : Decoder → Request → RequestDecodeError ⊎ CreateJobRequest
decode_create_job_request d request =
    if not (is_json (d.parse_media_type request.content_type))
    then inl unsupported_media_type
    else elim (d.decode max_create_job_body_bytes request.body) [
      | err e ↦ inl (decode_error e)
      | ok decoded ↦
          if is_at_end (d.decode_next max_create_job_body_bytes request.body)
          then inr decoded
          else inl more_than_one
    ]
