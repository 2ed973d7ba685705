-- ===== src/Http/Response.antt =====
-- internal/adapters/http/handler/response.go, and what http.ResponseWriter keeps of a response. A
-- body is the sequence of the values that are written to it: the encoding of JSON is not modelled.
use async_job_poc.Base.{ℕ, ℤ, Option, none, some, List, [], ◌∷◌, ◌++◌, if◌then◌else◌}
use async_job_poc.Text.{Text, bytes, text_eq}
use async_job_poc.Time.{Time}
use async_job_poc.Job.Entity.{Job}

-- jobResponse
pub record JobResponse : Type 0 where
  pub id : Text
  pub job_type : Text
  pub status : Text
  pub payload : Text
  pub retry_count : ℤ
  pub max_retries : ℤ
  pub last_error : Option Text
  pub created_at : Time
  pub updated_at : Time
  pub started_at : Option Time
  pub completed_at : Option Time

-- jobResponseFromDomain
unfoldable pub job_response_from_domain : Job → JobResponse
job_response_from_domain entity = record {
  id = entity.id;
  job_type = entity.job_type;
  status = entity.status;
  payload = entity.payload;
  retry_count = entity.retry_count;
  max_retries = entity.max_retries;
  last_error = entity.last_error;
  created_at = entity.created_at;
  updated_at = entity.updated_at;
  started_at = entity.started_at;
  completed_at = entity.completed_at;
}

-- What is written: a job, an errorEnvelope (its code and its message), {"status": …}, or text.
pub data Body : Type 0 where
  job : JobResponse → Body
  error : (code message : Text) → Body
  status : Text → Body
  plain : Text → Body

-- A header has the last value that was set for each name.
abbrev pub Header : Type 0
Header = Text → Option Text

-- `header` may be changed until the status is written, `sent` is what it was then.
pub record Writer : Type 0 where
  pub header : Header
  pub status : Option ℕ
  pub sent : Header
  pub body : List Body

abbrev pub new_writer : Writer
new_writer = record { header = λ name. none; status = none; sent = λ name. none; body = [] }

-- Header().Set and Header().Del
abbrev pub set_header : Text → Text → Writer → Writer
set_header name value writer = record writer {
  header = λ n. if text_eq n name then some value else writer.header n;
}

abbrev delete_header : Text → Writer → Writer
delete_header name writer = record writer {
  header = λ n. if text_eq n name then none else writer.header n;
}

-- WriteHeader: only the first call counts.
abbrev pub write_header : ℕ → Writer → Writer
write_header code writer = elim writer.status [
  | none ↦ record writer { status = some code; sent = writer.header }
  | some _ ↦ writer
]

-- Write, which first writes the status 200 if there is none.
abbrev pub write : Body → Writer → Writer
write body writer =
    let started = write_header 200 writer in record started { body = started.body ++ body ∷ [] }

-- writeJSON
unfoldable pub write_json : ℕ → Body → Writer → Writer
write_json code response writer = write response (
    write_header code
      (set_header (bytes "Content-Type") (bytes "application/json; charset=utf-8") writer))

-- writeAPIError
unfoldable pub write_api_error : ℕ → (code message : Text) → Writer → Writer
write_api_error status_code code message = write_json status_code (error code message)

-- http.Error
unfoldable pub http_error : Text → ℕ → Writer → Writer
http_error message code writer = write (plain (message ++ 10 ∷ [])) (
    write_header code (
      set_header (bytes "X-Content-Type-Options") (bytes "nosniff") (
        set_header (bytes "Content-Type") (bytes "text/plain; charset=utf-8")
          (delete_header (bytes "Content-Length") writer))))
