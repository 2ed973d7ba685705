-- ===== src/UseCase/CreateJob/Publishing.antt =====
-- CreateJob.Execute: the order of the row and the queued ID.
use async_job_poc.Base.{◌≡◌, none, sym, ap, ◌∙◌, ◌⊎◌, inl, inr, some, false, [], ◌∷◌}
use async_job_poc.Errors.{Result, ok, Result-cases, is_ok}
use async_job_poc.Job.Payload.{Unmarshal}
use async_job_poc.Job.Entity.{Job}
use async_job_poc.UseCase.Ports.{Ports, PortLaws, Same, row_of}
use async_job_poc.UseCase.Ports.Frames.{SameBut-of_Same, SameBut-trans}
use async_job_poc.UseCase.CreateJob.{CreateJobInput, submit, create_job}
use async_job_poc.UseCase.CreateJob.Laws.{
  created, submit_created, submit_ok, submit_refused, IsFresh, IsFresh-IsNamed, made, made-Same,
  before_submit, IsPublished, submit-IsPublished,
}

module _ {W : Type 0} (unmarshal : Unmarshal) (ports : Ports W) (laws : PortLaws ports) where
  open laws use {view, round, normalize}
  open view use {stored, queued}

  IsPublished-after :
      (j : Job) {w w' w'' : W}
      → Same view w w'
      → IsPublished unmarshal ports laws j w' w''
      → IsPublished unmarshal ports laws j w w''
  IsPublished-after j s p = record {
    absent = sym (s.stored j.id) ∙ p.absent;
    row = p.row;
    queue = p.queue ∙ ap (◌∷◌ j.id) s.queued;
    other = λ o h. p.other o h ∙ s.stored o;
  }

  -- If Execute returns a job, it is a valid, pending job with no retry used, whose ID was not taken;
  -- its row is stored, its ID is queued once, and no other row has changed.
  pub create_job-ok :
      (input : CreateJobInput) (w : W) {j : Job}
      → (create_job unmarshal ports input w).0 ≡ ok j
      → IsFresh unmarshal ports laws j
        × IsPublished unmarshal ports laws j w (create_job unmarshal ports input w).1
  create_job-ok input w {j} h = elim (before_submit unmarshal ports laws input w) [
    | inr (fails, _) ↦ absurd (no_result fails h)
    | inl (k, fresh, e) ↦
        let (same, c, q) =
          submit_ok unmarshal ports laws k (made unmarshal ports laws w) (rw e at h) in
        rw (same, e)
          (
            fresh,
            IsPublished-after k (made-Same unmarshal ports laws w) (
                submit-IsPublished unmarshal ports laws k (made unmarshal ports laws w)
                  (IsFresh-IsNamed unmarshal ports laws k fresh) c q),
          )
  ]
    where
      no_result : {A : Type 0} {r : Result A} {a : A} → is_ok r ≡ false → r ≡ ok a → ⊥
      no_result f g = cc

  -- What an ID that Execute queued stands for.
  unfoldable pub QueuedFresh : W → W → Type 0
  QueuedFresh w w' =
      (j : Job) × IsFresh unmarshal ports laws j
      × (stored w j.id ≡ none)
      × (queued w' ≡ j.id ∷ queued w)
      × (stored w' j.id ≡ some (row_of round normalize j))

  submit-safe :
      (j : Job) (w : W)
      → IsFresh unmarshal ports laws j
      → (queued (submit unmarshal ports j w).1 ≡ queued w)
        ⊎ QueuedFresh w (submit unmarshal ports j w).1
  unfolding created QueuedFresh
  submit-safe j w fresh = elim (Result-cases (ports.repository.create j w).0) [
    | inr (e, c) ↦
        inl (rw (submit_refused unmarshal ports laws j w c) (laws.create_other j w).queued)
    | inl (u, c) ↦
        let w1 : W = (ports.repository.create j w).1 in
        let w2 : W = created unmarshal ports laws j w in
        let seen = laws.status_persisted_same j [] w1 in
        let frame = SameBut-trans (laws.create_other j w) (SameBut-of_Same j.id seen) in
        let (absent, inserted) =
          laws.create_ok j w (IsFresh-IsNamed unmarshal ports laws j fresh) c in
        let row = laws.enqueue_stored j.id w2 j.id ∙ seen.stored j.id ∙ inserted in
        let queue : (queued (ports.enqueue j.id w2).1 ≡ queued w2)
            ⊎ (queued (ports.enqueue j.id w2).1 ≡ j.id ∷ queued w2) =
          elim (Result-cases (ports.enqueue j.id w2).0) [
            | inl (u', q) ↦ inr (laws.enqueue_ok j.id w2 q)
            | inr (e, q) ↦ laws.enqueue_err j.id w2 q
          ] in
        rw (submit_created unmarshal ports laws j w c) (elim queue [
          | inl p ↦ inl (p ∙ frame.queued)
          | inr p ↦ inr (j, fresh, absent, p ∙ ap (◌∷◌ j.id) frame.queued, row)
        ])
  ]

  -- Whatever the ports report, Execute queues nothing, or one ID, which had no row before, and whose
  -- row is stored by then and is that of a valid, pending job.
  pub create_job-safe :
      (input : CreateJobInput) (w : W)
      → (queued (create_job unmarshal ports input w).1 ≡ queued w)
        ⊎ QueuedFresh w (create_job unmarshal ports input w).1
  unfolding QueuedFresh
  create_job-safe input w = elim (before_submit unmarshal ports laws input w) [
    | inr (_, same) ↦ inl same.queued
    | inl (k, fresh, e) ↦
        let s = made-Same unmarshal ports laws w in
        rw e (elim (submit-safe k (made unmarshal ports laws w) fresh) [
          | inl p ↦ inl (p ∙ s.queued)
          | inr (j, f, absent, p, row) ↦
              inr (j, f, sym (s.stored j.id) ∙ absent, p ∙ ap (◌∷◌ j.id) s.queued, row)
        ])
  ]
