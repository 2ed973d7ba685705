-- ===== src/Executor/Simulated.antt =====
-- internal/adapters/executor/simulated.go
use async_job_poc.Base.{ℤ, pos, none, some, ltb_ℤ}
use async_job_poc.Text.{bytes}
use async_job_poc.Errors.{foreign, Result, ok, ◌>>◌, ensure}
use async_job_poc.UseCase.Action.{fail}
use async_job_poc.Executor.Payload.{Handler, Wait}

-- NewSimulated
unfoldable pub new_simulated : ℤ → Result ℤ
new_simulated processing_duration = do
  ensure (ltb_ℤ (pos 0) processing_duration)
      (foreign (bytes "processing duration must be greater than zero"))
  ok processing_duration

-- Simulated.Execute
unfoldable pub execute_simulated : {W : Type 0} → Wait W → ℤ → Handler W
execute_simulated wait processing_duration none = fail (foreign (bytes "job must not be nil"))
execute_simulated wait processing_duration (some entity) = wait processing_duration
