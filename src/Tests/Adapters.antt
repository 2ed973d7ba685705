-- ===== src/Tests/Adapters.antt =====
-- The adapters on concrete inputs.
use async_job_poc.Base.{
  ◌≡◌, refl, some, none, pos, [], ◌∷◌, ◌++◌, List, true, ◌⊎◌, inr, Option, arith, ◌↔◌, All,
}
use async_job_poc.Text.{Text, bytes, text_eq}
use async_job_poc.Errors.{ok, err, is_ok, Result, foreign, ◌>>=◌}
use async_job_poc.Job.Id
use async_job_poc.Job.Kind
use async_job_poc.Job.Id.{parse_id}
use async_job_poc.Job.Valid.{IsValid, new-IsValid}
use async_job_poc.Mysql.Record.{JobRecord, job_record_from_domain, job_record_to_domain}
use async_job_poc.Mysql.RoundTrip.{to_domain-from_domain}
use async_job_poc.Redis.{Client, enqueue, dequeue}
use async_job_poc.Redis.Fifo.{ClientLaws, first_in_first_out}
use async_job_poc.Executor.Payload.{Handler}
use async_job_poc.Executor.Dispatcher.{lookup, copy_handlers, new_dispatcher, execute}
use async_job_poc.Executor.Routing.{dispatcher_routes}
use async_job_poc.Executor.SendEmail.{SendEmailPayload, validate_send_email_payload}
use async_job_poc.Executor.ReportGeneration.{
  ReportGenerationPayload, validate_report_generation_payload,
}
use async_job_poc.Executor.DataCleanup.{DataCleanupPayload, validate_data_cleanup_payload}
use async_job_poc.Executor.Limits.{IsDeliverable, IsReportable, IsCleanable, payload_limits}
use async_job_poc.Idgen.{Bytes, raw_id, new_id}
use async_job_poc.Idgen.Valid.{AreBytes, digit_at, new_id-valid}
use async_job_poc.Tests.World.{an_id, at}
use async_job_poc.Tests.Jobs.{one_entry, params, pending_job, new-pending_job}

pending_job-IsValid : IsValid one_entry pending_job
pending_job-IsValid = new-IsValid one_entry params new-pending_job

to_domain-from_domain_example :
    (job_record_from_domain (some pending_job) >>= job_record_to_domain one_entry) ≡ ok pending_job
to_domain-from_domain_example = to_domain-from_domain one_entry pending_job pending_job-IsValid

abbrev pub row : JobRecord
row = record {
  id = an_id;
  job_type = bytes "send_email";
  status = bytes "pending";
  payload = bytes "{}";
  retry_count = pos 0;
  max_retries = pos 3;
  last_error = none;
  created_at = at 1;
  updated_at = at 1;
  started_at = none;
  completed_at = none;
}

mapped : job_record_to_domain one_entry row ≡ ok pending_job
unfolding job_record_from_domain
mapped = to_domain-from_domain_example

-- A Redis with one list, the newest first.
abbrev pub pop_last : Text → List Text → Result (List Text) × List Text
pop_last name [] = (err (foreign (bytes "timeout")), [])
pop_last name (x ∷ []) = (ok (name ∷ x ∷ []), [])
pop_last name (x ∷ y ∷ rest) = ((pop_last name (y ∷ rest)).0, x ∷ (pop_last name (y ∷ rest)).1)

abbrev pub client : Client (List Text)
client = record { lpush = λ name x w. (ok tt, x ∷ w); brpop = pop_last }

pub pop_last_ok :
    (name : Text) (w : List Text) {result : List Text}
    → (pop_last name w).0 ≡ ok result
    → (x : Text) × (result ≡ name ∷ x ∷ []) × (w ≡ (pop_last name w).1 ++ x ∷ [])
pop_last_ok name [] h = cc
pop_last_ok name (x ∷ []) h = (x, cc, refl)
pop_last_ok name (x ∷ y ∷ rest) h = let (z, p, q) = pop_last_ok name (y ∷ rest) h in (z, p, cc)

abbrev pub jobs : Text
jobs = bytes "jobs"

abbrev client_laws : ClientLaws client jobs
client_laws = record {
  items = λ w. w;
  lpush_ok = λ x w h. refl;
  lpush_err = λ x w h. inr refl;
  brpop_ok = λ w h. pop_last_ok jobs w h;
}

abbrev other_id : Text
other_id = bytes "00000000-0000-4000-8000-000000000000"

valid_ids : All (λ s. Id.is_valid s ≡ true) (an_id ∷ other_id ∷ [])
unfolding Id.is_valid
valid_ids = (refl, (refl, tt))

popped :
    (client.brpop jobs (enqueue client jobs an_id (other_id ∷ [])).1).0 ≡ ok (jobs ∷ other_id ∷ [])
unfolding enqueue Id.is_valid
popped = refl

first_in_first_out_example :
    ((enqueue client jobs an_id (other_id ∷ [])).0 ≡ ok tt)
    × ((dequeue client jobs (enqueue client jobs an_id (other_id ∷ [])).1).0 ≡ ok other_id)
    × ((dequeue client jobs (enqueue client jobs an_id (other_id ∷ [])).1).1 ≡ an_id ∷ [])
first_in_first_out_example =
    first_in_first_out client jobs client_laws (other_id ∷ []) an_id other_id [] refl valid_ids refl
      popped

-- Handlers that write their own name.
abbrev handler : Text → Handler Text
handler name j w = (ok tt, name)

abbrev given : List (Text × Option (Handler Text))
given =
    (bytes "data_cleanup", some (handler (bytes "cleanup")))
    ∷ (bytes "send_email", some (handler (bytes "email")))
    ∷ (bytes "report_generation", some (handler (bytes "report")))
    ∷ []

abbrev copied : List (Text × Handler Text)
copied =
    (bytes "data_cleanup", handler (bytes "cleanup"))
    ∷ (bytes "send_email", handler (bytes "email"))
    ∷ (bytes "report_generation", handler (bytes "report"))
    ∷ []

dispatcher : new_dispatcher given ≡ ok copied
unfolding new_dispatcher copy_handlers lookup text_eq Kind.is_valid Kind.type_send_email
    Kind.type_report_generation Kind.type_data_cleanup
dispatcher = refl

pending_job-is_valid : Kind.is_valid pending_job.job_type ≡ true
unfolding Kind.is_valid text_eq Kind.type_send_email
pending_job-is_valid = refl

dispatcher_routes_example :
    (h : Handler Text) × (lookup pending_job.job_type given ≡ some (some h))
    × ((execute copied (some pending_job) []).1 ≡ (h (some pending_job) []).1)
    × (is_ok (execute copied (some pending_job) []).0 ≡ is_ok (h (some pending_job) []).0)
dispatcher_routes_example = dispatcher_routes given pending_job [] dispatcher pending_job-is_valid

abbrev email : SendEmailPayload
email = record { to = bytes "a@b.c"; subject = bytes "hello"; body = bytes "text" }

abbrev report : ReportGenerationPayload
report = record { report = bytes "sales"; format = bytes "csv" }

abbrev cleanup : DataCleanupPayload
cleanup = record { scope = bytes "logs"; older_than_days = pos 30 }

payload_limits_example :
    ((validate_send_email_payload (λ s. some s) email ≡ ok tt) ↔ IsDeliverable (λ s. some s) email)
    × ((validate_report_generation_payload report ≡ ok tt) ↔ IsReportable report)
    × ((validate_data_cleanup_payload cleanup ≡ ok tt) ↔ IsCleanable cleanup)
payload_limits_example = payload_limits (λ s. some s) email report cleanup

abbrev pub random : Bytes
random = record {
  b0 = 0;
  b1 = 17;
  b2 = 34;
  b3 = 51;
  b4 = 68;
  b5 = 85;
  b6 = 255;
  b7 = 119;
  b8 = 255;
  b9 = 153;
  b10 = 170;
  b11 = 187;
  b12 = 204;
  b13 = 221;
  b14 = 238;
  b15 = 255;
}

pub random-AreBytes : AreBytes random
random-AreBytes = ground arith

new_id-valid_example :
    (new_id (ok random) ≡ ok (raw_id random))
    × (Id.is_valid (raw_id random) ≡ true)
    × (digit_at 14 (raw_id random) ≡ b'4')
    × (let d = digit_at 19 (raw_id random) in (d ≡ b'8') ⊎ ((d ≡ b'9') ⊎ ((d ≡ b'a') ⊎ (d ≡ b'b'))))
new_id-valid_example = new_id-valid random random-AreBytes
