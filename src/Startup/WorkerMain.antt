-- ===== src/Startup/WorkerMain.antt =====
-- cmd/worker/main.go
use async_job_poc.Base.{ℕ, ℤ, pos, true, Option, some, List, [], ◌∷◌}
use async_job_poc.Text.{Text, bytes}
use async_job_poc.Job.Kind.{type_send_email, type_report_generation, type_data_cleanup}
use async_job_poc.UseCase.Action.{Action, lift, ◌>>=◌}
use async_job_poc.UseCase.Constructors.{ProcessJob, new_process_job}
use async_job_poc.Config.{Config}
use async_job_poc.Logging.{new_job_lifecycle_observer}
use async_job_poc.Mysql.Repository.{new_job_repository}
use async_job_poc.Redis.{new_job_queue, enqueue}
use async_job_poc.Executor.Payload.{Handler}
use async_job_poc.Executor.SendEmail.{new_send_email_handler}
use async_job_poc.Executor.ReportGeneration.{new_report_generation_handler}
use async_job_poc.Executor.DataCleanup.{new_data_cleanup_handler}
use async_job_poc.Executor.Dispatcher.{new_dispatcher, execute}
use async_job_poc.Worker.{new_pool}
use async_job_poc.Startup.{Platform, connected, exit_code}

-- 2 * time.Second
abbrev pub handler_processing_duration : ℤ
handler_processing_duration = pos 2000000000

-- The handlers of the three types, for their durations; and Run of the pool that takes IDs from the
-- queue of the given name.
pub record Handlers (W : Type 0) : Type 0 where
  pub send_email : ℤ → Handler W
  pub report_generation : ℤ → Handler W
  pub data_cleanup : ℤ → Handler W
  pub run_pool : ProcessJob W → Text → Action W (Unit {0})

module _ {W : Type 0} (p : Platform W) (h : Handlers W) where
  abbrev pub handler_map : (email report cleanup : ℤ) → List (Text × Option (Handler W))
  handler_map email report cleanup =
      (type_send_email, some (h.send_email email))
      ∷ (type_report_generation, some (h.report_generation report))
      ∷ (type_data_cleanup, some (h.data_cleanup cleanup))
      ∷ []

  -- `run` once both connections are there.
  unfoldable pub serve_jobs : Config → Action W (Unit {0})
  serve_jobs cfg = do
    repository ← lift (new_job_repository true)
    queue_name ← lift (new_job_queue true cfg.redis.queue_name)
    observer ← lift (new_job_lifecycle_observer true)
    email ← lift (new_send_email_handler handler_processing_duration true)
    report ← lift (new_report_generation_handler handler_processing_duration true)
    cleanup ← lift (new_data_cleanup_handler handler_processing_duration true)
    handlers ← lift (new_dispatcher (handler_map email report cleanup))
    process_job ← lift (
        new_process_job (some p.repository) (some (enqueue p.client queue_name))
          (some (λ j. execute handlers (some j))) (some p.now) (some p.status_persisted ∷ []))
    pool ← lift (new_pool true true true)
    h.run_pool process_job queue_name

  -- run
  unfoldable pub run_worker : W → ℕ × W
  run_worker w = let r = connected p (bytes "async-job-worker") serve_jobs w in (exit_code r.0, r.1)
