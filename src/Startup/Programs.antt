-- ===== src/Startup/Programs.antt =====
-- The two programs, with the system that each of them assembles.
use mathlib.Core.List.{Permᴰ}
use async_job_poc.Base.{◌≡◌, refl, pos, true, some, List, [], ◌∷◌}
use async_job_poc.Text.{Text, bytes, trim_space, text_eq}
use async_job_poc.Errors.{ok, err}
use async_job_poc.Job.Kind.{is_valid, type_send_email, type_report_generation, type_data_cleanup}
use async_job_poc.UseCase.Action.{Action}
use async_job_poc.UseCase.Observer.{resolve_lifecycle_observer}
use async_job_poc.UseCase.Constructors.{new_process_job, new_create_job, new_get_job}
use async_job_poc.Config.{Config}
use async_job_poc.Config.Valid.{IsValid}
use async_job_poc.Logging.{new_job_lifecycle_observer}
use async_job_poc.Mysql.Repository.{new_job_repository}
use async_job_poc.Redis.{enqueue}
use async_job_poc.Executor.Payload.{Handler}
use async_job_poc.Executor.SendEmail.{new_send_email_handler}
use async_job_poc.Executor.ReportGeneration.{new_report_generation_handler}
use async_job_poc.Executor.DataCleanup.{new_data_cleanup_handler}
use async_job_poc.Executor.Dispatcher.{new_dispatcher, copy_handlers, lookup, execute}
use async_job_poc.Worker.{new_pool, new_workers}
use async_job_poc.Worker.Dispatcher.{new_dispatcher as new_queue_dispatcher}
use async_job_poc.Worker.Processor.{new_processor_worker}
use async_job_poc.Http.JobHandler.{new_job_handler}
use async_job_poc.Http.Ui.{new_ui_handler}
use async_job_poc.Startup.{Platform}
use async_job_poc.Startup.WorkerMain.{
  Handlers, handler_processing_duration, handler_map, serve_jobs, run_worker,
}
use async_job_poc.Startup.ApiMain.{Web, serve_requests, run_api}
use async_job_poc.Startup.Validated.{valid-queue_name}
use async_job_poc.Startup.Running.{IsRun, connected-IsRun}

module _ {W : Type 0} (p : Platform W) (h : Handlers W) where
  -- One handler for each job type, with the duration of two seconds.
  abbrev pub all_handlers : List (Text × Handler W)
  all_handlers =
      (bytes "send_email", h.send_email handler_processing_duration)
      ∷ (bytes "report_generation", h.report_generation handler_processing_duration)
      ∷ (bytes "data_cleanup", h.data_cleanup handler_processing_duration)
      ∷ []

  handlers_made :
      new_dispatcher (
        handler_map p h handler_processing_duration handler_processing_duration
          handler_processing_duration)
      ≡ ok all_handlers
  unfolding new_dispatcher copy_handlers lookup is_valid text_eq type_send_email
      type_report_generation type_data_cleanup
  handlers_made = refl

  pool_made : new_pool true true true ≡ ok (pos 1 ∷ pos 2 ∷ pos 3 ∷ pos 4 ∷ pos 5 ∷ [])
  unfolding new_pool new_workers new_queue_dispatcher new_processor_worker
  pool_made = refl

  -- The pool with the use case over the repository, the queue, the handlers and the clock.
  abbrev pub assembled_pool : Config → Action W (Unit {0})
  assembled_pool cfg =
      let queue_name = trim_space cfg.redis.queue_name in
      h.run_pool
        (record {
          repository = p.repository;
          enqueue = enqueue p.client queue_name;
          execute = λ j. execute all_handlers (some j);
          now = p.now;
          status_persisted = p.status_persisted;
        })
        queue_name

  serve_jobs_lem :
      (cfg : Config) (w : W)
      → IsValid p.split_host_port cfg
      → serve_jobs p h cfg w ≡ assembled_pool cfg w
  unfolding serve_jobs new_job_repository new_job_lifecycle_observer new_send_email_handler
      new_report_generation_handler new_data_cleanup_handler new_process_job
      resolve_lifecycle_observer
  serve_jobs_lem cfg w v = rw (valid-queue_name v, handlers_made, pool_made) refl

  -- The worker loads its configuration, whatever the order in which the required values are
  -- visited, connects to MySQL and to Redis, and runs the pool over the repository, the queue of
  -- the configured name, one handler for each job type and the clock; its exit code is that of the
  -- pool, 0 if it returns no error, and both connections are closed. Only a configuration that is
  -- not valid or a connection that fails ends it earlier, with the exit code 1 and what was open
  -- closed: no constructor and no check of options fails.
  pub run_worker-IsRun :
      ((values : List (Text × Text)) → Permᴰ (p.visit values) values)
      → (w : W) → IsRun p assembled_pool w (run_worker p h w)
  unfolding run_worker
  run_worker-IsRun visits w =
      connected-IsRun p visits (bytes "async-job-worker") (serve_jobs p h) assembled_pool
        serve_jobs_lem w

module _ {W : Type 0} (p : Platform W) (web : Web W) where
  -- The server at the configured address, with the use case over the repository, the queue, the ID
  -- generator and the clock; it is not run if there is no entrypoint among the files of the UI.
  abbrev pub assembled_server : Config → Action W (Unit {0})
  assembled_server cfg w =
      let files = web.files cfg.ui.assets_directory in
      elim (new_ui_handler (some files)) [
        | err e ↦ (err e, w)
        | ok ui ↦
            web.run_server cfg.http.address
              (record {
                repository = p.repository;
                enqueue = enqueue p.client (trim_space cfg.redis.queue_name);
                new_id = web.new_id;
                now = p.now;
                status_persisted = p.status_persisted;
              })
              ui w
      ]

  serve_requests_lem :
      (cfg : Config) (w : W)
      → IsValid p.split_host_port cfg
      → serve_requests p web cfg w ≡ assembled_server cfg w
  unfolding serve_requests new_job_repository new_job_lifecycle_observer new_create_job
      resolve_lifecycle_observer new_get_job new_job_handler
  serve_requests_lem cfg w v = rw (valid-queue_name v) refl

  -- The same of the API server: it is run, with the configured address, unless the configuration is
  -- not valid, a connection fails, or the UI has no entrypoint; and what was open is closed.
  pub run_api-IsRun :
      ((values : List (Text × Text)) → Permᴰ (p.visit values) values)
      → (w : W) → IsRun p assembled_server w (run_api p web w)
  unfolding run_api
  run_api-IsRun visits w =
      connected-IsRun p visits (bytes "async-job-api") (serve_requests p web) assembled_server
        serve_requests_lem w
