-- ===== src/Tests/Http.antt =====
-- The HTTP handlers on requests.
use async_job_poc.Base.{ℕ, suc, ◌≢◌, ◌≡◌, refl, ◌⊎◌, true, false, [], ◌∷◌, Option, some}
use async_job_poc.Text.{bytes, trim_space, text_eq}
use async_job_poc.Errors.{Error, ok, err, sentinel, foreign, eof}
use async_job_poc.Job.Id
use async_job_poc.Job.Entity.{Job}
use async_job_poc.UseCase.Action.{Action}
use async_job_poc.UseCase.Ports.{Same}
use async_job_poc.UseCase.CreateJob.{create_job}
use async_job_poc.UseCase.CreateJob.Publishing.{QueuedFresh}
use async_job_poc.UseCase.GetJob.{get_job}
use async_job_poc.UseCase.GetJob.Lookup.{IsFound}
use async_job_poc.Idgen.{Bytes}
use async_job_poc.Http.Response.{
  Writer, new_writer, job, error, status, job_response_from_domain, write_json,
}
use async_job_poc.Http.Decoding.{Decoder, Request}
use async_job_poc.Http.JobHandler.{create, get_by_id}
use async_job_poc.Http.Refusals.{IsUnanswered, Answers, IsRefusal}
use async_job_poc.Job.Kind
use async_job_poc.Http.Creating.{IsCreated, create_cases}
use async_job_poc.Http.Getting.{IsMissingOrOther, get_by_id_cases}
use async_job_poc.Http.RequestId.{Next, request_id_middleware}
use async_job_poc.Http.Health.{ready}
use async_job_poc.Http.Health.Readiness.{AreUp, IsReady, IsNotReady, ready_cases}
use async_job_poc.Http.Ui.{clean}
use async_job_poc.Tests.World.{World, view, ports, laws, an_id}
use async_job_poc.Tests.Jobs.{one_entry}
use async_job_poc.Tests.UseCases.{healthy, empty}
use async_job_poc.Tests.Adapters.{random}

abbrev decoder : Decoder
decoder = record {
  parse_media_type = λ s. ok s;
  decode = λ limit body. ok (record { job_type = bytes "send_email"; payload = body });
  decode_next = λ limit body. err (sentinel eof);
}

abbrev request : Request
request = record {
  path = bytes "/api/v1/jobs";
  request_id = [];
  content_type = bytes "Application/JSON";
  body = bytes "{}";
  job_id = an_id;
}

unanswered : IsUnanswered new_writer
unanswered = record { status = refl; body = refl }

abbrev posted : Writer × World
posted = create decoder (create_job one_entry (ports false)) request new_writer empty

create_cases_example :
    ((j : Job) × IsCreated one_entry (ports false) (laws false) j empty posted.0 posted.1)
    ⊎ (IsRefusal posted.0
        × ((posted.1.queue ≡ []) ⊎ QueuedFresh one_entry (ports false) (laws false) empty posted.1))
create_cases_example =
    create_cases one_entry (ports false) (laws false) decoder request new_writer empty unanswered

abbrev got : Writer × World
got = get_by_id (get_job (ports false)) request new_writer healthy

get_by_id_cases_example :
    Same view healthy got.1
    × (((Id.is_valid (trim_space an_id) ≡ false)
          × Answers got.0 400
              (error (bytes "validation_error") (bytes "job ID must be a valid UUID")))
        ⊎ ((Id.is_valid (trim_space an_id) ≡ true)
            × (((j : Job) × IsFound (ports false) (laws false) (trim_space an_id) healthy j
                  × Answers got.0 200 (job (job_response_from_domain j)))
                ⊎ ((e : Error) × (((ports false).repository.get_by_id (trim_space an_id) healthy).0
                      ≡ err e)
                    × IsRefusal got.0
                    × IsMissingOrOther (ports false) e got.0))))
get_by_id_cases_example =
    get_by_id_cases (ports false) (laws false) request new_writer healthy unanswered

abbrev random_source : Action World Bytes
random_source w = (ok random, w)

abbrev echo : Next World
echo id writer w = (write_json 200 (status id) writer, w)

abbrev with_id : Writer × World
with_id = request_id_middleware random_source echo (bytes " request 1 ") new_writer healthy

abbrev ping : Option (Action ℕ (Unit {0}))
ping = some (λ w. (ok tt, suc w))

abbrev down : Option (Action ℕ (Unit {0}))
down = some (λ w. (err (foreign (bytes "connection refused")), suc w))

ready_cases_example :
    ((ping ∷ down ∷ [] ≢ [])
      × AreUp (ping ∷ down ∷ []) 0
      × IsReady (ready (ping ∷ down ∷ []) new_writer 0).0)
    ⊎ (((ping ∷ down ∷ [] ≡ []) ⊎ (¬ AreUp (ping ∷ down ∷ []) 0))
        × IsNotReady (ready (ping ∷ down ∷ []) new_writer 0).0)
ready_cases_example = ready_cases (ping ∷ down ∷ []) new_writer 0 unanswered

cleaned :
    (clean (bytes "/a/../api//x/./y/") ≡ bytes "/api/x/y")
    × (clean (bytes "../..") ≡ bytes "../..")
    × (clean [] ≡ bytes ".")
unfolding clean text_eq
cleaned = (refl, refl, refl)
