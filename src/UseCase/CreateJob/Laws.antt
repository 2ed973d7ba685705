-- ===== src/UseCase/CreateJob/Laws.antt =====
-- What CreateJob.Execute does to the world.
use async_job_poc.Base.{
  ◌≡◌, ◌≢◌, refl, ap, ◌∙◌, ◌⊎◌, inl, inr, none, some, [], ◌∷◌, false, arith, pos,
}
use async_job_poc.Text.{Text}
use async_job_poc.Errors.{Error, ok, err, Result-cases, is_ok}
use async_job_poc.Job.Kind.{parse_type}
use async_job_poc.Job.Status.{status_pending}
use async_job_poc.Job.Payload.{Unmarshal}
use async_job_poc.Job.Entity.{NewParams, Job, new}
use async_job_poc.Job.Valid.{IsValid, new-IsValid}
use async_job_poc.UseCase.Ports.{Ports, PortLaws, Same, row_of, IsNamed}
use async_job_poc.UseCase.Ports.Frames.{SameBut-of_Same, SameBut-trans, Same-trans}
use async_job_poc.UseCase.CreateJob.{CreateJobInput, submit, create_job}

module _ {W : Type 0} (unmarshal : Unmarshal) (ports : Ports W) (laws : PortLaws ports) where
  open laws use {view, round, normalize}
  open view use {stored, queued, runs}

  unfoldable pub created : Job → W → W
  created j w = (ports.status_persisted j [] (ports.repository.create j w).1).1

  pub submit_created :
      (j : Job) (w : W)
      → (ports.repository.create j w).0 ≡ ok tt
      → (submit unmarshal ports j w).1 ≡ (ports.enqueue j.id (created j w)).1
  unfolding submit created
  submit_created j w h = ground arith

  pub submit_ok :
      (j : Job) (w : W) {k : Job}
      → (submit unmarshal ports j w).0 ≡ ok k
      → (k ≡ j)
        × ((ports.repository.create j w).0 ≡ ok tt)
        × ((ports.enqueue j.id (created j w)).0 ≡ ok tt)
  unfolding submit created
  submit_ok j w h = ground arith

  pub submit_refused :
      (j : Job) (w : W) {e : Error}
      → (ports.repository.create j w).0 ≡ err e
      → (submit unmarshal ports j w).1 ≡ (ports.repository.create j w).1
  unfolding submit
  submit_refused j w h = ground arith

  -- A new entity that is pending with no retry used.
  abbrev pub IsFresh : Job → Type 0
  IsFresh j = IsValid unmarshal j × (j.status ≡ status_pending) × (j.retry_count ≡ pos 0)

  pub IsFresh-IsNamed : (j : Job) → IsFresh j → IsNamed j
  IsFresh-IsNamed j (v, _, _) = (v.id, v.kind, v.status)

  new-IsFresh : (p : NewParams) {j : Job} → new unmarshal p ≡ ok j → IsFresh j
  unfolding new
  new-IsFresh p h = (new-IsValid unmarshal p h, ground arith, ground arith)

  -- The parameters of New, and the world in which it is called.
  unfoldable pub params : CreateJobInput → Text → Text → W → NewParams
  params input t id w = record {
    id = id;
    job_type = t;
    payload = input.payload;
    created_at = (ports.now (ports.new_id w).1).0;
  }

  unfoldable pub made : W → W
  made w = (ports.now (ports.new_id w).1).1

  pub made-Same : (w : W) → Same view w (made w)
  unfolding made
  made-Same w = Same-trans (laws.new_id_same w) (laws.now_same (ports.new_id w).1)

  -- It fails before the repository is called, and nothing visible has changed.
  abbrev pub FailsEarly : CreateJobInput → W → Type 0
  FailsEarly input w =
      (is_ok (create_job unmarshal ports input w).0 ≡ false)
      × Same view w (create_job unmarshal ports input w).1

  no_type :
      (input : CreateJobInput) (w : W) {e : Error}
      → parse_type input.job_type ≡ err e
      → (is_ok (create_job unmarshal ports input w).0 ≡ false)
        × ((create_job unmarshal ports input w).1 ≡ w)
  unfolding create_job
  no_type input w h = ground arith

  no_id :
      (input : CreateJobInput) (w : W) {t : Text} {e : Error}
      → parse_type input.job_type ≡ ok t
      → (ports.new_id w).0 ≡ err e
      → (is_ok (create_job unmarshal ports input w).0 ≡ false)
        × ((create_job unmarshal ports input w).1 ≡ (ports.new_id w).1)
  unfolding create_job
  no_id input w h k = ground arith

  no_entity :
      (input : CreateJobInput) (w : W) {t id : Text} {e : Error}
      → parse_type input.job_type ≡ ok t
      → (ports.new_id w).0 ≡ ok id
      → new unmarshal (params input t id w) ≡ err e
      → (is_ok (create_job unmarshal ports input w).0 ≡ false)
        × ((create_job unmarshal ports input w).1 ≡ made w)
  unfolding create_job params made
  no_entity input w h k n = ground arith

  pub submitted :
      (input : CreateJobInput) (w : W) {t id : Text} {j : Job}
      → parse_type input.job_type ≡ ok t
      → (ports.new_id w).0 ≡ ok id
      → new unmarshal (params input t id w) ≡ ok j
      → create_job unmarshal ports input w ≡ submit unmarshal ports j (made w)
  unfolding create_job params made
  submitted input w h k n = ground arith

  fails_early :
      (input : CreateJobInput) {w w' : W}
      → (is_ok (create_job unmarshal ports input w).0 ≡ false)
        × ((create_job unmarshal ports input w).1 ≡ w')
      → Same view w w'
      → FailsEarly input w
  fails_early input (f, e) s = (f, rw e s)

  pub before_submit :
      (input : CreateJobInput) (w : W)
      → ((j : Job) × IsFresh j
          × (create_job unmarshal ports input w ≡ submit unmarshal ports j (made w)))
        ⊎ FailsEarly input w
  before_submit input w = elim (Result-cases (parse_type input.job_type)) [
    | inr (e, h) ↦ inr (
        fails_early input (no_type input w h)
          (record { stored = λ o. refl; queued = refl; runs = refl }))
    | inl (t, h) ↦ elim (Result-cases (ports.new_id w).0) [
      | inr (e, k) ↦ inr (fails_early input (no_id input w h k) (laws.new_id_same w))
      | inl (id, k) ↦ elim (Result-cases (new unmarshal (params input t id w))) [
        | inr (e, n) ↦ inr (fails_early input (no_entity input w h k n) (made-Same w))
        | inl (j, n) ↦ inl (j, new-IsFresh (params input t id w) n, submitted input w h k n)
      ]
    ]
  ]

  -- The row of the new entity is there, and its ID was queued.
  pub record IsPublished (j : Job) (w w' : W) : Type 0 where
    pub absent : stored w j.id ≡ none
    pub row : stored w' j.id ≡ some (row_of round normalize j)
    pub queue : queued w' ≡ j.id ∷ queued w
    pub other : (o : Text) → o ≢ j.id → stored w' o ≡ stored w o

  pub submit-IsPublished :
      (j : Job) (w : W)
      → IsNamed j
      → (ports.repository.create j w).0 ≡ ok tt
      → (ports.enqueue j.id (created j w)).0 ≡ ok tt
      → IsPublished j w (submit unmarshal ports j w).1
  unfolding created
  submit-IsPublished j w v c q =
      let w1 : W = (ports.repository.create j w).1 in
      let (absent, row) = laws.create_ok j w v c in
      let seen = laws.status_persisted_same j [] w1 in
      let frame = SameBut-trans (laws.create_other j w) (SameBut-of_Same j.id seen) in
      rw (submit_created j w c) (record {
        absent = absent;
        row = laws.enqueue_stored j.id (created j w) j.id ∙ seen.stored j.id ∙ row;
        queue = laws.enqueue_ok j.id (created j w) q ∙ ap (◌∷◌ j.id) frame.queued;
        other = λ o h. laws.enqueue_stored j.id (created j w) o ∙ frame.stored o h;
      })
