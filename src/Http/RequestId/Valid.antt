-- ===== src/Http/RequestId/Valid.antt =====
-- The request ID that a handler is given.
use async_job_poc.Base.{ℕ, ◌≤◌, ◌≡◌, ◌⊎◌, length, All, sym}
use async_job_poc.Text.{Text}
use async_job_poc.Errors.{ok}
use async_job_poc.UseCase.Action.{Action}
use async_job_poc.Idgen.{Bytes, new_id}
use async_job_poc.Idgen.Valid.{AreBytes, new_id-valid}
use async_job_poc.Http.RequestId.{new_request_id}

-- A letter, a digit, or one of `-`, `_` and `.`.
abbrev pub IsAllowed : ℕ → Type 0
IsAllowed c =
    ((b'a' ≤ c) × (c ≤ b'z'))
    ⊎ (((b'A' ≤ c) × (c ≤ b'Z'))
        ⊎ (((b'0' ≤ c) × (c ≤ b'9')) ⊎ ((c ≡ b'-') ⊎ ((c ≡ b'_') ⊎ (c ≡ b'.')))))

pub record IsRequestId (id : Text) : Type 0 where
  pub not_empty : 1 ≤ length id
  pub not_long : length id ≤ 128
  pub allowed : All IsAllowed id

-- For random bytes, newRequestID returns the ID that NewID of the job ID generator returns.
new_request_id-new_id : (v : Bytes) → AreBytes v → new_request_id (ok v) ≡ new_id (ok v)
unfolding new_request_id
new_request_id-new_id v a = sym (new_id-valid v a).0
