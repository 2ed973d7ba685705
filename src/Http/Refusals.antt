-- ===== src/Http/Refusals.antt =====
-- The error responses of the API: the table of them, and that the handlers give no other.
use async_job_poc.Base.{
  ℕ, ◌≡◌, refl, inl, inr, Bool, true, false, ◌&&◌, ◌||◌, Bool-cases, some, none, List, [], ◌∷◌,
  ◌==◌, String,
}
use async_job_poc.Text.{Text, bytes, text_eq}
use async_job_poc.Errors.{
  Error, is, invalid_type, invalid_payload, invalid_id, job_not_found, job_already_exists,
  job_queue_unavailable, eof, max_bytes,
}
use async_job_poc.Http.Response.{Writer, Body, error, write_json, write_api_error}
use async_job_poc.Http.Decoding.{
  RequestDecodeError, unsupported_media_type, decode_error, more_than_one,
}
use async_job_poc.Http.JobHandler.{write_application_error}

abbrev entry : ℕ → (code message : String) → RequestDecodeError
entry status code message = record { status = status; code = bytes code; message = bytes message }

-- No message depends on the error that is answered.
abbrev pub refusals : List RequestDecodeError
refusals =
    entry 415 "unsupported_media_type" "Content-Type must be application/json"
    ∷ entry 400 "invalid_request" "request body is required"
    ∷ entry 413 "request_too_large" "request body exceeds 1 MiB"
    ∷ entry 400 "invalid_request" "request body must contain valid job JSON"
    ∷ entry 400 "invalid_request" "request body must contain one JSON object"
    ∷ entry 400 "validation_error" "job type is not supported"
    ∷ entry 400 "validation_error" "payload must be a non-empty JSON object"
    ∷ entry 400 "validation_error" "job ID must be a valid UUID"
    ∷ entry 404 "job_not_found" "job was not found"
    ∷ entry 409 "job_already_exists" "job already exists"
    ∷ entry 503 "job_queue_unavailable" "job queue is temporarily unavailable"
    ∷ entry 500 "internal_error" "an unexpected error occurred"
    ∷ []

abbrev pub is_among : RequestDecodeError → List RequestDecodeError → Bool
is_among r [] = false
is_among r (x ∷ xs) =
    (r.status == x.status && text_eq r.code x.code && text_eq r.message x.message) || is_among r xs

-- Nothing has been written yet.
pub record IsUnanswered (writer : Writer) : Type 0 where
  pub status : writer.status ≡ none
  pub body : writer.body ≡ []

-- One JSON body was written, with this status.
pub record Answers (writer : Writer) (status : ℕ) (body : Body) : Type 0 where
  pub has_status : writer.status ≡ some status
  pub has_body : writer.body ≡ body ∷ []
  pub is_json : writer.sent (bytes "Content-Type") ≡ some (bytes "application/json; charset=utf-8")

-- One of the refusals of the table was written.
pub record IsRefusal (writer : Writer) : Type 0 where
  pub refusal : RequestDecodeError
  pub listed : is_among refusal refusals ≡ true
  pub answers : Answers writer refusal.status (error refusal.code refusal.message)

pub write_json-Answers :
    (status : ℕ) (body : Body) (writer : Writer)
    → IsUnanswered writer
    → Answers (write_json status body writer) status body
unfolding write_json text_eq
write_json-Answers status body writer u =
    rw (u.status, u.body) (record { has_status = refl; has_body = refl; is_json = refl })

refused :
    (status : ℕ) (code message : Text) (writer : Writer)
    → IsUnanswered writer
    → is_among (record { status = status; code = code; message = message }) refusals ≡ true
    → IsRefusal (write_api_error status code message writer)
unfolding write_api_error
refused status code message writer u h = record {
  refusal = record { status = status; code = code; message = message };
  listed = h;
  answers = write_json-Answers status (error code message) writer u;
}

-- A request that is refused before the use case is called.
abbrev pub is_listed : RequestDecodeError → Bool
is_listed e = is_among e refusals

pub unsupported_media_type-is_listed : is_listed unsupported_media_type ≡ true
unfolding unsupported_media_type text_eq
unsupported_media_type-is_listed = refl

pub more_than_one-is_listed : is_listed more_than_one ≡ true
unfolding more_than_one text_eq
more_than_one-is_listed = refl

pub decode_error-is_listed : (e : Error) → is_listed (decode_error e) ≡ true
unfolding decode_error text_eq
decode_error-is_listed e = elim (Bool-cases (is e eof)) [
  | inl h ↦ rw h refl
  | inr h ↦ rw h (elim (Bool-cases (is e max_bytes)) [ inl k ↦ rw k refl | inr k ↦ rw k refl ])
]

pub write_api_error-IsRefusal :
    (e : RequestDecodeError) (writer : Writer)
    → IsUnanswered writer
    → is_listed e ≡ true
    → IsRefusal (write_api_error e.status e.code e.message writer)
write_api_error-IsRefusal e writer u h = refused e.status e.code e.message writer u h

pub write_application_error-IsRefusal :
    (e : Error) (writer : Writer)
    → IsUnanswered writer
    → IsRefusal (write_application_error e writer)
unfolding write_application_error text_eq
write_application_error-IsRefusal e writer u = elim (Bool-cases (is e invalid_type)) [
  | inl h ↦ rw h (refused _ _ _ writer u refl)
  | inr h ↦ rw h (elim (Bool-cases (is e invalid_payload)) [
    | inl h ↦ rw h (refused _ _ _ writer u refl)
    | inr h ↦ rw h (elim (Bool-cases (is e invalid_id)) [
      | inl h ↦ rw h (refused _ _ _ writer u refl)
      | inr h ↦ rw h (elim (Bool-cases (is e job_not_found)) [
        | inl h ↦ rw h (refused _ _ _ writer u refl)
        | inr h ↦ rw h (elim (Bool-cases (is e job_already_exists)) [
          | inl h ↦ rw h (refused _ _ _ writer u refl)
          | inr h ↦ rw h (elim (Bool-cases (is e job_queue_unavailable)) [
            | inl h ↦ rw h (refused _ _ _ writer u refl)
            | inr h ↦ rw h (refused _ _ _ writer u refl)
          ])
        ])
      ])
    ])
  ])
]
