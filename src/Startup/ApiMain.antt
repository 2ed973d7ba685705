-- ===== src/Startup/ApiMain.antt =====
-- cmd/api/main.go
use async_job_poc.Base.{ℕ, true, some, [], ◌∷◌}
use async_job_poc.Text.{Text, bytes}
use async_job_poc.UseCase.Action.{Action, lift, ◌>>=◌}
use async_job_poc.UseCase.Constructors.{CreateJob, new_create_job, new_get_job}
use async_job_poc.Config.{Config}
use async_job_poc.Logging.{new_job_lifecycle_observer}
use async_job_poc.Mysql.Repository.{new_job_repository}
use async_job_poc.Redis.{new_job_queue, enqueue}
use async_job_poc.Http.JobHandler.{new_job_handler}
use async_job_poc.Http.Ui.{Files, new_ui_handler}
use async_job_poc.Startup.{Platform, connected, exit_code}

-- The ID generator, os.DirFS, and Run of the HTTP server at an address, with its handlers.
pub record Web (W : Type 0) : Type 0 where
  pub new_id : Action W Text
  pub files : Text → Files
  pub run_server : Text → CreateJob W → Files → Action W (Unit {0})

module _ {W : Type 0} (p : Platform W) (web : Web W) where
  -- `run` once both connections are there.
  unfoldable pub serve_requests : Config → Action W (Unit {0})
  serve_requests cfg = do
    repository ← lift (new_job_repository true)
    queue_name ← lift (new_job_queue true cfg.redis.queue_name)
    observer ← lift (new_job_lifecycle_observer true)
    create_job ← lift (
        new_create_job (some p.repository) (some (enqueue p.client queue_name)) (some web.new_id)
          (some p.now) (some p.status_persisted ∷ []))
    get_job ← lift (new_get_job (some p.repository))
    job_handler ← lift (new_job_handler true true true)
    ui_handler ← lift (new_ui_handler (some (web.files cfg.ui.assets_directory)))
    web.run_server cfg.http.address create_job ui_handler

  -- run
  unfoldable pub run_api : W → ℕ × W
  run_api w = let r = connected p (bytes "async-job-api") serve_requests w in (exit_code r.0, r.1)
