-- ===== src/Http/Creating.antt =====
-- POST /api/v1/jobs from the request to the database and the queue.
use async_job_poc.Base.{◌≡◌, refl, ◌⊎◌, inl, inr, some, ◌++◌, true, Bool-cases}
use async_job_poc.Text.{bytes, text_eq}
use async_job_poc.Errors.{ok, Result-cases}
use async_job_poc.Job.Payload.{Unmarshal}
use async_job_poc.Job.Entity.{Job}
use async_job_poc.UseCase.Ports.{Ports, PortLaws}
use async_job_poc.UseCase.CreateJob.{CreateJobInput, create_job}
use async_job_poc.UseCase.CreateJob.Laws.{IsFresh, IsPublished}
use async_job_poc.UseCase.CreateJob.Publishing.{create_job-ok, create_job-safe, QueuedFresh}
use async_job_poc.Http.Response.{Writer, job, job_response_from_domain, set_header, write_json}
use async_job_poc.Http.Decoding.{
  Decoder, Request, RequestDecodeError, CreateJobRequest, unsupported_media_type, decode_error,
  more_than_one, is_json, is_at_end, decode_create_job_request, max_create_job_body_bytes,
}
use async_job_poc.Http.JobHandler.{accepted, create}
use async_job_poc.Http.Refusals.{
  IsUnanswered, Answers, IsRefusal, is_listed, unsupported_media_type-is_listed,
  more_than_one-is_listed, decode_error-is_listed, write_json-Answers, write_api_error-IsRefusal,
  write_application_error-IsRefusal,
}

-- A request is decoded, or refused with an entry of the table.
decode-cases :
    (d : Decoder) (request : Request)
    → ((body : CreateJobRequest) × (decode_create_job_request d request ≡ inr body))
      ⊎ ((e : RequestDecodeError) × (decode_create_job_request d request ≡ inl e)
          × (is_listed e ≡ true))
unfolding decode_create_job_request
decode-cases d request = elim (Bool-cases (is_json (d.parse_media_type request.content_type))) [
  | inr h ↦ inr (unsupported_media_type, rw h refl, unsupported_media_type-is_listed)
  | inl h ↦ elim (Result-cases (d.decode max_create_job_body_bytes request.body)) [
    | inr (e, k) ↦ inr (decode_error e, rw (h, k) refl, decode_error-is_listed e)
    | inl (body, k) ↦
        elim (Bool-cases (is_at_end (d.decode_next max_create_job_body_bytes request.body))) [
          | inl n ↦ inl (body, rw (h, k, n) refl)
          | inr n ↦ inr (more_than_one, rw (h, k, n) refl, more_than_one-is_listed)
        ]
  ]
]

-- The response for a job that was accepted.
pub record IsAccepted (writer : Writer) (j : Job) : Type 0 where
  pub answers : Answers writer 202 (job (job_response_from_domain j))
  pub location : writer.sent (bytes "Location") ≡ some (bytes "/api/v1/jobs/" ++ j.id)

accepted-IsAccepted :
    (j : Job) (writer : Writer) → IsUnanswered writer → IsAccepted (accepted (ok j) writer) j
unfolding write_json text_eq
accepted-IsAccepted j writer u =
    let located : Writer = set_header (bytes "Location") (bytes "/api/v1/jobs/" ++ j.id) writer in
    let u' : IsUnanswered located = record { status = u.status; body = u.body } in
    record {
      answers = write_json-Answers 202 (job (job_response_from_domain j)) located u';
      location = rw (u.status) refl;
    }

module _ {W : Type 0} (unmarshal : Unmarshal) (ports : Ports W) (laws : PortLaws ports) where
  open laws use {view}
  open view use {queued}

  -- A job was created, stored and queued, and the response describes it.
  pub record IsCreated (j : Job) (w : W) (writer : Writer) (w' : W) : Type 0 where
    pub fresh : IsFresh unmarshal ports laws j
    pub published : IsPublished unmarshal ports laws j w w'
    pub response : IsAccepted writer j

  executed :
      (input : CreateJobInput) (writer : Writer) (w : W)
      → IsUnanswered writer
      → let r = create_job unmarshal ports input w in
        ((j : Job) × IsCreated j w (accepted r.0 writer) r.1)
        ⊎ (IsRefusal (accepted r.0 writer)
            × ((queued r.1 ≡ queued w) ⊎ QueuedFresh unmarshal ports laws w r.1))
  executed input writer w u = elim (Result-cases (create_job unmarshal ports input w).0) [
    | inl (j, e) ↦
        let (fresh, published) = create_job-ok unmarshal ports laws input w e in
        inl (
          j,
          record {
            fresh = fresh;
            published = published;
            response = rw e (accepted-IsAccepted j writer u);
          },
        )
    | inr (x, e) ↦ inr (
      rw e (write_application_error-IsRefusal x writer u),
      create_job-safe unmarshal ports laws input w,
    )
  ]

  -- On a response to which nothing is written, Create answers every request in one of two ways.
  -- Either it answers 202 with the new job and its location, and a valid, pending job with no retry
  -- used was stored and its ID queued. Or it answers with one of the refusals of the table, none of
  -- which has the status 202, and nothing was queued, or an ID whose row is stored.
  pub create_cases :
      (d : Decoder) (request : Request) (writer : Writer) (w : W)
      → IsUnanswered writer
      → let r = create d (create_job unmarshal ports) request writer w in
        ((j : Job) × IsCreated j w r.0 r.1)
        ⊎ (IsRefusal r.0 × ((queued r.1 ≡ queued w) ⊎ QueuedFresh unmarshal ports laws w r.1))
  unfolding create
  create_cases d request writer w u = elim (decode-cases d request) [
    | inl (body, e) ↦
        rw e (executed (record { job_type = body.job_type; payload = body.payload }) writer w u)
    | inr (e, h, listed) ↦ rw h (inr (write_api_error-IsRefusal e writer u listed, inl refl))
  ]
