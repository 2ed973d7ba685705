-- ===== src/Http/Router.antt =====
-- internal/adapters/http/router.go. http.ServeMux is a parameter: it chooses a handler by the patterns
-- that are registered, and sets the path parameter.
use async_job_poc.Base.{Option, List, [], ◌∷◌}
use async_job_poc.Text.{Text, bytes}
use async_job_poc.Job.Entity.{Job}
use async_job_poc.UseCase.Action.{Action}
use async_job_poc.UseCase.CreateJob.{CreateJobInput}
use async_job_poc.Idgen.{Bytes}
use async_job_poc.Http.Response.{Writer}
use async_job_poc.Http.Decoding.{Decoder, Request}
use async_job_poc.Http.JobHandler.{create, get_by_id}
use async_job_poc.Http.Health.{live, ready}
use async_job_poc.Http.RequestId.{request_id_middleware}
use async_job_poc.Http.Ui.{Files, serve_http}

-- http.Handler
abbrev pub HttpHandler : Type 0 → Type 0
HttpHandler W = Request → Writer → W → Writer × W

-- What the handlers call: the use cases, the files of the UI, and the checkers of Ready.
pub record Services (W : Type 0) : Type 0 where
  pub decoder : Decoder
  pub create_job : CreateJobInput → Action W Job
  pub get_job : Text → Action W Job
  pub files : Files
  pub checkers : List (Option (Action W (Unit {0})))

module _ {W : Type 0} (services : Services W) where
  -- The patterns, with their handlers.
  unfoldable pub routes : List (Text × HttpHandler W)
  routes =
      (bytes "GET /health/live", λ request writer w. (live writer, w))
      ∷ (bytes "GET /health/ready", λ request. ready services.checkers)
      ∷ (bytes "POST /api/v1/jobs", create services.decoder services.create_job)
      ∷ (bytes "GET /api/v1/jobs/{jobID}", get_by_id services.get_job)
      ∷ (bytes "GET /", λ request writer w. (serve_http services.files request.path writer, w))
      ∷ []

  -- NewRouter
  unfoldable pub new_router :
      (mux : List (Text × HttpHandler W) → HttpHandler W) → Action W Bytes → HttpHandler W
  new_router mux random request =
      request_id_middleware random (λ id. mux routes request) request.request_id
