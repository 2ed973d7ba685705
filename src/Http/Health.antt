-- ===== src/Http/Health.antt =====
-- internal/adapters/http/handler/health_handler.go. The timeout of Ready is part of what a Ping
-- returns.
pub mod Readiness
use async_job_poc.Base.{Option, none, some, List, [], ◌∷◌}
use async_job_poc.Text.{bytes}
use async_job_poc.Errors.{ok, err}
use async_job_poc.UseCase.Action.{Action}
use async_job_poc.Http.Response.{Writer, status, write_json}

-- HealthHandler.Live
unfoldable pub live : Writer → Writer
live = write_json 200 (status (bytes "ok"))

-- writeNotReady
unfoldable pub write_not_ready : Writer → Writer
write_not_ready = write_json 503 (status (bytes "not_ready"))

module _ {W : Type 0} where
  -- The loop of Ready, over checkers that may be nil.
  unfoldable pub check_all : List (Option (Action W (Unit {0}))) → Writer → W → Writer × W
  check_all [] writer w = (write_json 200 (status (bytes "ready")) writer, w)
  check_all (none ∷ checkers) writer w = (write_not_ready writer, w)
  check_all (some ping ∷ checkers) writer w =
      let rest = check_all checkers writer (ping w).1 in
      elim (ping w).0 [ err e ↦ (write_not_ready writer, (ping w).1) | ok _ ↦ rest ]

  -- HealthHandler.Ready
  unfoldable pub ready : List (Option (Action W (Unit {0}))) → Writer → W → Writer × W
  ready [] writer w = (write_not_ready writer, w)
  ready (checker ∷ checkers) writer w = check_all (checker ∷ checkers) writer w
