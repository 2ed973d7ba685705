-- ===== src/UseCase/ProcessJob/Effects.antt =====
-- What the calls of the repository and the queue in ProcessJob do to the row of one job.
use async_job_poc.Base.{true, ◌≡◌, refl, ◌∙◌, ◌⊎◌, inl, inr, Option, none, some, ◌∷◌, arith}
use mathlib.Core.Path.{subst}
use async_job_poc.Text.{Text}
use async_job_poc.Errors.{Error, Verbs, Result, ok, err, Result-cases}
use async_job_poc.Job.Status
use async_job_poc.Job.Entity.{Job}
use async_job_poc.UseCase.Ports.{Ports, PortLaws, SameBut, overwrite}
use async_job_poc.UseCase.Ports.Frames.{SameBut-of_Same, SameBut-trans}
use async_job_poc.UseCase.ProcessJob.{save}

module _ {W : Type 0} (verbs : Verbs) (ports : Ports W) (laws : PortLaws ports) where
  open laws use {view, round}
  open view use {stored, queued, runs}

  pub update_other :
      (l : Job) (id : Text) (w : W) → l.id ≡ id → SameBut view id w (ports.repository.update l w).1
  update_other l id w same =
      subst (λ i. SameBut view i w (ports.repository.update l w).1) same (laws.update_other l w)

  pub update_done :
      (l r : Job) (id : Text) (w : W)
      → l.id ≡ id
      → Status.is_valid l.status ≡ true
      → (ports.repository.update l w).0 ≡ ok tt
      → stored w id ≡ some r
      → stored (ports.repository.update l w).1 id ≡ some (overwrite round r l)
  update_done l r id w same v h =
      subst
        (λ i.
          stored w i ≡ some r
          → stored (ports.repository.update l w).1 i ≡ some (overwrite round r l))
        same (laws.update_ok l r w v h)

  pub update_failed :
      (l r : Job) (id : Text) (w : W) {e : Error}
      → l.id ≡ id
      → Status.is_valid l.status ≡ true
      → (ports.repository.update l w).0 ≡ err e
      → stored w id ≡ some r
      → (stored (ports.repository.update l w).1 id ≡ some r)
        ⊎ (stored (ports.repository.update l w).1 id ≡ some (overwrite round r l))
  update_failed l r id w same v h =
      subst
        (λ i.
          stored w i ≡ some r
          → (stored (ports.repository.update l w).1 i ≡ some r)
            ⊎ (stored (ports.repository.update l w).1 i ≡ some (overwrite round r l)))
        same (laws.update_err l r w v h)

  pub enqueue-queue :
      (w : W) (id : Text)
      → (queued (ports.enqueue id w).1 ≡ queued w) ⊎ (queued (ports.enqueue id w).1 ≡ id ∷ queued w)
  enqueue-queue w id = elim (Result-cases (ports.enqueue id w).0) [
    | inl (u, h) ↦ inr (laws.enqueue_ok id w h)
    | inr (e, h) ↦ laws.enqueue_err id w h
  ]

  unfoldable pub observed : Job → Text → W → W
  observed l previous w = (ports.status_persisted l previous (ports.repository.update l w).1).1

  pub observed-SameBut :
      (id : Text) (l : Job) (previous : Text) (w : W)
      → l.id ≡ id
      → SameBut view id w (observed l previous w)
  unfolding observed
  observed-SameBut id l previous w same =
      SameBut-trans (update_other l id w same)
        (SameBut-of_Same id (laws.status_persisted_same l previous (ports.repository.update l w).1))

  pub observed-row :
      (id : Text) (r l : Job) (previous : Text) (w : W)
      → l.id ≡ id
      → Status.is_valid l.status ≡ true
      → stored w id ≡ some r
      → (ports.repository.update l w).0 ≡ ok tt
      → stored (observed l previous w) id ≡ some (overwrite round r l)
  unfolding observed
  observed-row id r l previous w same v at h =
      (laws.status_persisted_same l previous (ports.repository.update l w).1).stored id
      ∙ update_done l r id w same v h at

  pub save_done :
      (f g : Error → Error) (previous : Text) (l : Job) (w : W)
      → (ports.repository.update l w).0 ≡ ok tt
      → save verbs ports f g previous (none, l) w ≡ (ok l, observed l previous w)
  unfolding save observed
  save_done f g previous l w h = ground arith

  save_refused :
      (f g : Error → Error) (previous : Text) (l : Job) (w : W) {x : Error}
      → (ports.repository.update l w).0 ≡ err x
      → save verbs ports f g previous (none, l) w ≡ (err (g x), (ports.repository.update l w).1)
  unfolding save
  save_refused f g previous l w h = ground arith

  -- What `save` reports, and the row that it leaves of a row `r`.
  abbrev pub SaveEnds : Option Error × Job → Text → Job → Result Job × W → Type 0
  SaveEnds moved id r (ok l, w') =
      (moved.0 ≡ none) × (l ≡ moved.1) × (stored w' id ≡ some (overwrite round r moved.1))
  SaveEnds moved id r (err e, w') =
      (stored w' id ≡ some r)
      ⊎ ((moved.0 ≡ none) × (stored w' id ≡ some (overwrite round r moved.1)))

  saved_or_not :
      (l r : Job) (id : Text) (w : W) {e : Error}
      → l.id ≡ id
      → Status.is_valid l.status ≡ true
      → (ports.repository.update l w).0 ≡ err e
      → stored w id ≡ some r
      → SaveEnds (none, l) id r (err e, (ports.repository.update l w).1)
  saved_or_not l r id w same v h at = elim (update_failed l r id w same v h at) [
    | inl p ↦ inl p
    | inr p ↦ inr (refl, p)
  ]

  save_nothing :
      (f g : Error → Error) (previous : Text) (e : Error) (l : Job) (id : Text) (r : Job) (w : W)
      → stored w id ≡ some r
      → SameBut view id w (save verbs ports f g previous (some e, l) w).1
        × SaveEnds (some e, l) id r (save verbs ports f g previous (some e, l) w)
  unfolding save
  save_nothing f g previous e l id r w at =
      (record { stored = λ o h. refl; queued = refl; runs = refl }, inl at)

  pub save-SaveEnds :
      (f g : Error → Error) (previous : Text) (m : Option Error × Job) (id : Text) (r : Job) (w : W)
      → m.1.id ≡ id
      → (m.0 ≡ none → Status.is_valid m.1.status ≡ true)
      → stored w id ≡ some r
      → SameBut view id w (save verbs ports f g previous m w).1
        × SaveEnds m id r (save verbs ports f g previous m w)
  save-SaveEnds f g previous (some e, l) id r w same v at = save_nothing f g previous e l id r w at
  save-SaveEnds f g previous (none, l) id r w same v at =
      elim (Result-cases (ports.repository.update l w).0) [
        | inl (u, h) ↦ rw (save_done f g previous l w h) (
          observed-SameBut id l previous w same,
          (refl, refl, observed-row id r l previous w same (v refl) at h),
        )
        | inr (x, h) ↦
            rw (save_refused f g previous l w h)
              (update_other l id w same, saved_or_not l r id w same (v refl) h at)
      ]
