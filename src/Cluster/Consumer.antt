-- ===== src/Cluster/Consumer.antt =====
-- What the proofs ask of Dequeue: it takes the oldest ID of the queue, or fails.
use async_job_poc.Base.{◌≡◌, ◌⊎◌, true, List, [], ◌∷◌, ◌++◌, All}
use async_job_poc.Text.{Text}
use async_job_poc.Errors.{Error, ok, err}
use async_job_poc.Job.Id
use async_job_poc.UseCase.Ports.{JobConsumer, Ports, PortLaws}

-- Every ID of the list is one that the domain allows.
abbrev pub AreValid : List Text → Type 0
AreValid ids = All (λ id. Id.is_valid id ≡ true) ids

-- A call that fails may have lost an ID.
pub record ConsumerLaws {W : Type 0} {ports : Ports W} (laws : PortLaws ports)
    (dequeue_id : JobConsumer W) : Type 0 where
  pub dequeue_ok :
      (w : W) {id : Text}
      → AreValid (laws.view.queued w)
      → (dequeue_id w).0 ≡ ok id
      → laws.view.queued w ≡ laws.view.queued (dequeue_id w).1 ++ id ∷ []
  pub dequeue_err :
      (w : W) {e : Error}
      → (dequeue_id w).0 ≡ err e
      → (laws.view.queued (dequeue_id w).1 ≡ laws.view.queued w)
        ⊎ ((id : Text) × (laws.view.queued w ≡ laws.view.queued (dequeue_id w).1 ++ id ∷ []))
  pub dequeue_stored :
      (w : W) (id : Text) → laws.view.stored (dequeue_id w).1 id ≡ laws.view.stored w id
  pub dequeue_runs : (w : W) → laws.view.runs (dequeue_id w).1 ≡ laws.view.runs w
