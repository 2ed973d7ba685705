-- ===== src/Http/Getting.antt =====
-- GET /api/v1/jobs/{jobID} from the request to the database.
use async_job_poc.Base.{◌≡◌, refl, ◌∙◌, ◌⊎◌, inl, inr, some, arith, true, false, Bool-cases}
use async_job_poc.Text.{Text, bytes, trim_space}
use async_job_poc.Errors.{
  Error, Result, ok, err, is, is_ok, Result-cases, job_not_found, invalid_id, invalid_type,
  invalid_payload,
}
use async_job_poc.Job.Id
use async_job_poc.Job.Id.{parse_id}
use async_job_poc.Job.Entity.{Job}
use async_job_poc.UseCase.Ports.{Ports, PortLaws, Same}
use async_job_poc.UseCase.CreateJob.{says}
use async_job_poc.UseCase.GetJob.{get_job}
use async_job_poc.UseCase.GetJob.Lookup.{IsFound, get_job_cases}
use async_job_poc.Http.Response.{Writer, job, error, job_response_from_domain, write_api_error}
use async_job_poc.Http.Decoding.{Request}
use async_job_poc.Http.JobHandler.{returned, get_by_id, write_application_error}
use async_job_poc.Http.Refusals.{
  IsUnanswered, Answers, IsRefusal, write_json-Answers, write_application_error-IsRefusal,
}

module _ {W : Type 0} (ports : Ports W) where
  invalid_error :
      (input : Text) (w : W)
      → Id.is_valid (trim_space input) ≡ false
      → (e : Error) × ((get_job ports input w).0 ≡ err e)
        × (is e invalid_type ≡ false)
        × (is e invalid_payload ≡ false)
        × (is e invalid_id ≡ true)
  unfolding get_job parse_id is
  invalid_error input w h = rw h (_, refl, refl, refl, refl)

  lookup_error :
      (input : Text) (w : W) {e : Error}
      → Id.is_valid (trim_space input) ≡ true
      → (ports.repository.get_by_id (trim_space input) w).0 ≡ err e
      → (f : Error) × ((get_job ports input w).0 ≡ err f)
        × (is f invalid_type ≡ is e invalid_type)
        × (is f invalid_payload ≡ is e invalid_payload)
        × (is f invalid_id ≡ is e invalid_id)
        × (is f job_not_found ≡ is e job_not_found)
  unfolding get_job parse_id is
  lookup_error input w {e} h k = (says "get job: " e, ground arith, refl, refl, refl, refl)

  not_found_status :
      (writer : Writer)
      → IsUnanswered writer
      → (write_api_error 404 (bytes "job_not_found") (bytes "job was not found") writer).status
        ≡ some 404
  unfolding write_api_error
  not_found_status writer u = (write_json-Answers 404 _ writer u).has_status

  -- The answer for an error of the repository: 404 if it is ErrJobNotFound, unless it is also one
  -- of the errors of a job that is not valid.
  abbrev pub IsMissingOrOther : Error → Writer → Type 0
  IsMissingOrOther e writer =
      ((is e job_not_found ≡ true) × (writer.status ≡ some 404))
      ⊎ ((is e job_not_found ≡ false)
          ⊎ ((is e invalid_type ≡ true)
              ⊎ ((is e invalid_payload ≡ true) ⊎ (is e invalid_id ≡ true))))

  missing :
      (e f : Error) (writer : Writer)
      → IsUnanswered writer
      → is f invalid_type ≡ is e invalid_type
      → is f invalid_payload ≡ is e invalid_payload
      → is f invalid_id ≡ is e invalid_id
      → is f job_not_found ≡ is e job_not_found
      → IsMissingOrOther e (write_application_error f writer)
  unfolding write_application_error
  missing e f writer u t p i n = elim (Bool-cases (is e job_not_found)) [
    | inr h ↦ inr (inl h)
    | inl h ↦ elim (Bool-cases (is e invalid_type)) [
      | inl h' ↦ inr (inr (inl h'))
      | inr h' ↦ elim (Bool-cases (is e invalid_payload)) [
        | inl k ↦ inr (inr (inr (inl k)))
        | inr k ↦ elim (Bool-cases (is e invalid_id)) [
          | inl l ↦ inr (inr (inr (inr l)))
          | inr l ↦ inl (h, rw (t ∙ h', p ∙ k, i ∙ l, n ∙ h) (not_found_status writer u))
        ]
      ]
    ]
  ]

  invalid_answer :
      (input : Text) (writer : Writer) (w : W)
      → IsUnanswered writer
      → Id.is_valid (trim_space input) ≡ false
      → Answers
          (returned (get_job ports input w).0 writer)
          400
          (error (bytes "validation_error") (bytes "job ID must be a valid UUID"))
  unfolding write_application_error write_api_error
  invalid_answer input writer w u h =
      let (e, fails, t, p, i) = invalid_error input w h in
      rw fails (
        rw (t, p, i)
          (write_json-Answers 400
            (error (bytes "validation_error") (bytes "job ID must be a valid UUID")) writer u))

  lookup_answer :
      (input : Text) (writer : Writer) (w : W) {e : Error}
      → IsUnanswered writer
      → Id.is_valid (trim_space input) ≡ true
      → (ports.repository.get_by_id (trim_space input) w).0 ≡ err e
      → IsRefusal (returned (get_job ports input w).0 writer)
        × IsMissingOrOther e (returned (get_job ports input w).0 writer)
  lookup_answer input writer w {e} u h k =
      let (f, fails, t, p, i, n) = lookup_error input w h k in
      rw fails (write_application_error-IsRefusal f writer u, missing e f writer u t p i n)

  module _ (laws : PortLaws ports) where
    open laws use {view}
    open view use {stored}

    -- On a response to which nothing is written, GetByID changes nothing visible, and answers in
    -- one of three ways. For a path parameter that is not an ID once trimmed it answers 400 with
    -- the message about the ID. Otherwise it answers 200 with the job that is stored under the ID;
    -- or the lookup failed, and it answers with one of the refusals of the table, which is the 404
    -- if the error is ErrJobNotFound and not one of the errors of a job that is not valid.
    pub get_by_id_cases :
        (request : Request) (writer : Writer) (w : W)
        → IsUnanswered writer
        → let r = get_by_id (get_job ports) request writer w in
          let id = trim_space request.job_id in
          Same view w r.1
          × (((Id.is_valid id ≡ false)
                × Answers r.0 400
                    (error (bytes "validation_error") (bytes "job ID must be a valid UUID")))
              ⊎ ((Id.is_valid id ≡ true)
                  × (((j : Job) × IsFound ports laws id w j
                        × Answers r.0 200 (job (job_response_from_domain j)))
                      ⊎ ((e : Error) × ((ports.repository.get_by_id id w).0 ≡ err e)
                          × IsRefusal r.0
                          × IsMissingOrOther e r.0))))
    unfolding get_by_id
    get_by_id_cases request writer w u =
        let (same, cases) = get_job_cases ports laws request.job_id w in
        (
          same,
          elim cases [
            | inl (h, _) ↦ inl (h, invalid_answer request.job_id writer w u h)
            | inr (h, inl (j, e, found)) ↦ inr (
              h,
              inl (
                j,
                found,
                rw e (write_json-Answers 200 (job (job_response_from_domain j)) writer u),
              ),
            )
            | inr (h, inr (_, fails)) ↦
                elim (Result-cases (ports.repository.get_by_id (trim_space request.job_id) w).0) [
                  | inl (j, k) ↦ absurd (no_result fails k)
                  | inr (e, k) ↦
                      let (refuses, known) = lookup_answer request.job_id writer w u h k in
                      inr (h, inr (e, k, refuses, known))
                ]
          ],
        )
      where
        no_result : {A : Type 0} {r : Result A} {a : A} → is_ok r ≡ false → r ≡ ok a → ⊥
        no_result f g = cc
