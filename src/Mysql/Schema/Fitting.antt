-- ===== src/Mysql/Schema/Fitting.antt =====
-- Which jobs the table of internal/adapters/mysql takes.
use async_job_poc.Base.{◌≤◌, ◌≡◌, Bool, true, Option, none, some, length}
use async_job_poc.Text.{Text}
use async_job_poc.Job.Id
use async_job_poc.Job.Kind
use async_job_poc.Job.Status
use async_job_poc.Job.Kind.Laws.{is_valid-cases as type_cases}
use async_job_poc.Job.Status.Laws.{is_valid-cases as status_cases}
use async_job_poc.Job.Entity.{Job}

module _ (is_utf8mb4 : Text → Bool) where
  -- The last error is not longer than its column, and its column takes its characters.
  abbrev pub IsStorable : Option Text → Type 0
  IsStorable none = Unit {0}
  IsStorable (some s) = (length s ≤ 65535) × (is_utf8mb4 s ≡ true)
