-- ===== src/UseCase/GetJob/Lookup.antt =====
-- What GetJob.Execute returns, on every branch.
use async_job_poc.Base.{◌≡◌, ◌⊎◌, inl, inr, true, false, Bool-cases, some, arith, refl}
use async_job_poc.Text.{Text, trim_space}
use async_job_poc.Errors.{FailsAs, invalid_id, is, ok, is_ok, Result-cases}
use async_job_poc.Job.Id
use async_job_poc.Job.Id.{parse_id}
use async_job_poc.Job.Entity.{Job}
use async_job_poc.UseCase.Ports.{Ports, PortLaws, Same}
use async_job_poc.UseCase.GetJob.{get_job}

module _ {W : Type 0} (ports : Ports W) where
  invalid_input :
      (input : Text) (w : W)
      → Id.is_valid (trim_space input) ≡ false
      → FailsAs invalid_id (get_job ports input w).0 × ((get_job ports input w).1 ≡ w)
  unfolding get_job parse_id is
  invalid_input input w h = (ground arith, ground arith)

  valid_input :
      (input : Text) (w : W)
      → Id.is_valid (trim_space input) ≡ true
      → ((get_job ports input w).1 ≡ (ports.repository.get_by_id (trim_space input) w).1)
        × (is_ok (get_job ports input w).0
            ≡ is_ok (ports.repository.get_by_id (trim_space input) w).0)
  unfolding get_job parse_id
  valid_input input w h = (ground arith, ground arith)

  returned :
      (input : Text) (w : W) {j : Job}
      → Id.is_valid (trim_space input) ≡ true
      → (ports.repository.get_by_id (trim_space input) w).0 ≡ ok j
      → (get_job ports input w).0 ≡ ok j
  unfolding get_job parse_id
  returned input w h f = ground arith

  module _ (laws : PortLaws ports) where
    open laws use {view}
    open view use {stored}

    unchanged : (w : W) → Same view w w
    unchanged w = record { stored = λ o. refl; queued = refl; runs = refl }

    -- The result of a lookup of the ID `id`.
    pub record IsFound (id : Text) (w : W) (j : Job) : Type 0 where
      pub row : stored w id ≡ some j
      pub same : j.id ≡ id

    -- Execute changes nothing visible. For an input that is not an ID once trimmed it fails with
    -- ErrInvalidID; otherwise it returns the stored job of that ID, or it fails as the repository
    -- does.
    pub get_job_cases :
        (input : Text) (w : W)
        → Same view w (get_job ports input w).1
          × (((Id.is_valid (trim_space input) ≡ false)
                × FailsAs invalid_id (get_job ports input w).0)
              ⊎ ((Id.is_valid (trim_space input) ≡ true)
                  × (((j : Job) × ((get_job ports input w).0 ≡ ok j)
                        × IsFound (trim_space input) w j)
                      ⊎ ((is_ok (get_job ports input w).0 ≡ false)
                          × (is_ok (ports.repository.get_by_id (trim_space input) w).0 ≡ false)))))
    get_job_cases input w =
        let id : Text = trim_space input in
        elim (Bool-cases (Id.is_valid id)) [
          | inr h ↦
              let (fails, same) = invalid_input input w h in (rw same (unchanged w), inl (h, fails))
          | inl h ↦
              let (same, oks) = valid_input input w h in
              (
                rw same (laws.get_by_id_same id w),
                inr (
                  h,
                  elim (Result-cases (ports.repository.get_by_id id w).0) [
                    | inl (j, f) ↦
                        let (row, own) = laws.get_by_id_ok id w f in
                        inl (j, returned input w h f, record { row = row; same = own })
                    | inr (e, f) ↦
                        let refused : is_ok (ports.repository.get_by_id id w).0 ≡ false =
                          rw f refl in
                        inr (cc, refused)
                  ],
                ),
              )
        ]
