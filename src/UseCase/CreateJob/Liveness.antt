-- ===== src/UseCase/CreateJob/Liveness.antt =====
-- CreateJob.Execute on a valid input, with ports that work.
use async_job_poc.Base.{inl, inr, ◌≡◌, ◌≢◌, true, none, [], arith}
use async_job_poc.Text.{Text}
use async_job_poc.Time.{zero_instant}
use async_job_poc.Errors.{Result-cases, is_ok, ok}
use async_job_poc.Job.Id
use async_job_poc.Job.Kind.{parse_type}
use async_job_poc.Job.Kind.Laws.{parse_type-ok}
use async_job_poc.Job.Payload.{Unmarshal, validate_payload}
use async_job_poc.Job.Entity.{NewParams, Job, new}
use async_job_poc.UseCase.Ports.{Ports, PortLaws}
use async_job_poc.UseCase.CreateJob.Laws.{params, made, submitted}
use async_job_poc.Job.Named.{IsUuid-iff, IsType-iff}
use async_job_poc.Job.Valid.{new_iff, validate_payload_iff}
use async_job_poc.UseCase.CreateJob.{CreateJobInput, submit, create_job}

new-id : (unmarshal : Unmarshal) (p : NewParams) {j : Job} → new unmarshal p ≡ ok j → j.id ≡ p.id
unfolding new
new-id unmarshal p h = ground arith

made_entity :
    (unmarshal : Unmarshal) (p : NewParams)
    → is_ok (new unmarshal p) ≡ true
    → (j : Job) × (new unmarshal p ≡ ok j) × (j.id ≡ p.id)
made_entity unmarshal p h = elim (Result-cases (new unmarshal p)) [
  | inl (j, e) ↦ (j, e, new-id unmarshal p e)
  | inr (x, e) ↦ cc
]

module _ {W : Type 0} (unmarshal : Unmarshal) (ports : Ports W) (laws : PortLaws ports) where
  submit_succeeds :
      (j : Job) (w : W)
      → (ports.repository.create j w).0 ≡ ok tt
      → ((w' : W) → (ports.enqueue j.id w').0 ≡ ok tt)
      → (submit unmarshal ports j w).0 ≡ ok j
  unfolding submit
  submit_succeeds j w c q =
      let sent = q (ports.status_persisted j [] (ports.repository.create j w).1).1 in ground arith

  -- If the type of the input parses, its payload is a JSON object that is not empty, the generator
  -- gives a valid ID, the clock does not give the zero time, and the repository and the queue take
  -- a job with this ID, then Execute returns a job with this ID.
  pub create_job-succeeds :
      (input : CreateJobInput) (w : W) {t id : Text}
      → parse_type input.job_type ≡ ok t
      → validate_payload unmarshal input.payload ≡ none
      → (ports.new_id w).0 ≡ ok id
      → Id.is_valid id ≡ true
      → (ports.now (ports.new_id w).1).0.instant ≢ zero_instant
      → ((j : Job)
          → j.id ≡ id
          → (ports.repository.create j (ports.now (ports.new_id w).1).1).0 ≡ ok tt)
      → ((w' : W) → (ports.enqueue id w').0 ≡ ok tt)
      → (j : Job) × ((create_job unmarshal ports input w).0 ≡ ok j) × (j.id ≡ id)
  unfolding params made
  create_job-succeeds input w {t} {id} p v g i c creates sends =
      let w' : W = (ports.now (ports.new_id w).1).1 in
      let values : NewParams = params unmarshal ports laws input t id w in
      let valid = parse_type-ok input.job_type p in
      let (j, e, same) = made_entity unmarshal values (
        (new_iff unmarshal values).1 (
          (IsUuid-iff _).0 i,
          (IsType-iff _).0 valid,
          (validate_payload_iff unmarshal values.payload).0 v,
          c,
        )) in
      let done = submit_succeeds j w' (creates j same) (rw same sends) in
      (j, rw (submitted unmarshal ports laws input w p g e) done, same)
