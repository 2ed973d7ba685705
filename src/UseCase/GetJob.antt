-- ===== src/UseCase/GetJob.antt =====
-- internal/application/usecase/get_job.go
pub mod Lookup
use async_job_poc.Text.{Text}
use async_job_poc.Job.Entity.{Job}
use async_job_poc.Job.Id.{parse_id}
use async_job_poc.UseCase.Action.{Action, or_fail, ◌>>=◌}
use async_job_poc.UseCase.Ports.{Ports}
use async_job_poc.UseCase.CreateJob.{says}

module _ {W : Type 0} (ports : Ports W) where
  -- GetJob.Execute
  unfoldable pub get_job : Text → Action W Job
  get_job input = do
    id ← or_fail (says "validate job ID: ") (λ w. (parse_id input, w))
    or_fail (says "get job: ") (ports.repository.get_by_id id)
