-- ===== src/Http/JobHandler.antt =====
-- internal/adapters/http/handler/job_handler.go: the handlers of jobs. Log records are left out.
use async_job_poc.Base.{ℕ, Bool, ◌⊎◌, inl, inr, String, ◌++◌, if◌then◌else◌}
use async_job_poc.Text.{Text, bytes}
use async_job_poc.Errors.{
  Error, foreign, is, invalid_type, invalid_payload, invalid_id, job_not_found, job_already_exists,
  job_queue_unavailable, Result, ok, err, ensure, ◌>>◌,
}
use async_job_poc.Job.Entity.{Job}
use async_job_poc.UseCase.Action.{Action}
use async_job_poc.UseCase.CreateJob.{CreateJobInput}
use async_job_poc.Http.Decoding.{
  Decoder, Request, RequestDecodeError, CreateJobRequest, decode_create_job_request,
}
use async_job_poc.Http.Response.{
  Writer, job, job_response_from_domain, set_header, write_json, write_api_error,
}

-- NewJobHandler, for whether the use cases and the logger are there.
unfoldable pub new_job_handler : Bool → Bool → Bool → Result (Unit {0})
new_job_handler has_create_job has_get_job has_logger = do
  ensure has_create_job (foreign (bytes "create-job use case must not be nil"))
  ensure has_get_job (foreign (bytes "get-job use case must not be nil"))
  ensure has_logger (foreign (bytes "logger must not be nil"))

abbrev answer : ℕ → (code message : String) → Writer → Writer
answer status code message = write_api_error status (bytes code) (bytes message)

-- JobHandler.writeApplicationError
unfoldable pub write_application_error : Error → Writer → Writer
write_application_error e =
    if is e invalid_type
    then answer 400 "validation_error" "job type is not supported"
    else if is e invalid_payload
    then answer 400 "validation_error" "payload must be a non-empty JSON object"
    else if is e invalid_id
    then answer 400 "validation_error" "job ID must be a valid UUID"
    else if is e job_not_found
    then answer 404 "job_not_found" "job was not found"
    else if is e job_already_exists
    then answer 409 "job_already_exists" "job already exists"
    else if is e job_queue_unavailable
    then answer 503 "job_queue_unavailable" "job queue is temporarily unavailable"
    else answer 500 "internal_error" "an unexpected error occurred"

-- The end of JobHandler.Create, for what the use case returned.
abbrev pub accepted : Result Job → Writer → Writer
accepted (err e) writer = write_application_error e writer
accepted (ok entity) writer =
    write_json 202 (job (job_response_from_domain entity))
      (set_header (bytes "Location") (bytes "/api/v1/jobs/" ++ entity.id) writer)

-- The end of JobHandler.GetByID.
abbrev pub returned : Result Job → Writer → Writer
returned (err e) writer = write_application_error e writer
returned (ok entity) writer = write_json 200 (job (job_response_from_domain entity)) writer

module _ {W : Type 0} where
  abbrev pub execute_create :
      (CreateJobInput → Action W Job)
      → RequestDecodeError ⊎ CreateJobRequest
      → Writer
      → W
      → Writer × W
  execute_create execute (inl refused) writer w =
      (write_api_error refused.status refused.code refused.message writer, w)
  execute_create execute (inr body) writer w =
      let (r, w') = execute (record { job_type = body.job_type; payload = body.payload }) w in
      (accepted r writer, w')

  -- JobHandler.Create, where `execute` is Execute of the use case.
  unfoldable pub create :
      Decoder → (CreateJobInput → Action W Job) → Request → Writer → W → Writer × W
  create d execute request = execute_create execute (decode_create_job_request d request)

  -- JobHandler.GetByID
  unfoldable pub get_by_id : (Text → Action W Job) → Request → Writer → W → Writer × W
  get_by_id execute request writer w =
      let (r, w') = execute request.job_id w in (returned r writer, w')
