-- ===== src/Http/ReadBack.antt =====
-- POST /api/v1/jobs, and then GET /api/v1/jobs/{jobID} with the ID that was answered.
use async_job_poc.Base.{◌≡◌, ◌⊎◌}
use async_job_poc.Errors.{Error, err}
use async_job_poc.Job.Id
use async_job_poc.Job.Payload.{Unmarshal}
use async_job_poc.Job.Entity.{Job}
use async_job_poc.UseCase.Ports.{Ports, PortLaws, row_of}
use async_job_poc.Http.Response.{Writer, job, job_response_from_domain}
use async_job_poc.Http.JobHandler.{get_by_id}
use async_job_poc.Http.Refusals.{Answers, IsRefusal}

module _ {W : Type 0} (unmarshal : Unmarshal) (ports : Ports W) (laws : PortLaws ports) where
  open laws use {round, normalize}

  -- What a lookup of the ID of `j` answers: the job as it is stored, or a refusal because the
  -- repository failed.
  abbrev pub IsReadBack : Job → W → Writer → Type 0
  IsReadBack j w writer =
      Answers writer 200 (job (job_response_from_domain (row_of round normalize j)))
      ⊎ ((e : Error) × ((ports.repository.get_by_id j.id w).0 ≡ err e) × IsRefusal writer)
