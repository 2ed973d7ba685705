-- ===== src/UseCase/Constructors.antt =====
-- The constructors of internal/application/usecase: NewProcessJob, NewCreateJob and NewGetJob. A
-- dependency is an option: an interface that may be nil.
use async_job_poc.Base.{◌≡◌, ◌↔◌, String, Option, none, some, List, [], ◌∷◌, true, arith}
use async_job_poc.Text.{Text, bytes}
use async_job_poc.Time.{Time}
use async_job_poc.Errors.{foreign, Result, ok, err, is_ok, ◌>>=◌}
use async_job_poc.Job.Entity.{Job}
use async_job_poc.UseCase.Action.{Action}
use async_job_poc.UseCase.Ports.{JobRepository}
use async_job_poc.UseCase.Observer.{Observer, resolve_lifecycle_observer}

-- `if dependency == nil { return nil, errors.New(…) }`
abbrev pub required : {A : Type 0} → String → Option A → Result A
required reason none = err (foreign (bytes reason))
required reason (some a) = ok a

-- A dependency that is not nil.
abbrev pub IsGiven : {A : Type 0} → Option A → Type 0
IsGiven none = ⊥
IsGiven (some a) = Unit {0}

pub record ProcessJob (W : Type 0) : Type 0 where
  pub repository : JobRepository W
  pub enqueue : Text → Action W (Unit {0})
  pub execute : Job → Action W (Unit {0})
  pub now : W → Time × W
  pub status_persisted : Observer W

pub record CreateJob (W : Type 0) : Type 0 where
  pub repository : JobRepository W
  pub enqueue : Text → Action W (Unit {0})
  pub new_id : Action W Text
  pub now : W → Time × W
  pub status_persisted : Observer W

module _ {W : Type 0} where
  -- NewProcessJob
  unfoldable pub new_process_job :
      Option (JobRepository W)
      → Option (Text → Action W (Unit {0}))
      → Option (Job → Action W (Unit {0}))
      → Option (W → Time × W)
      → List (Option (Observer W))
      → Result (ProcessJob W)
  new_process_job repository enqueue execute now observers = do
    repository ← required "job repository must not be nil" repository
    enqueue ← required "job queue must not be nil" enqueue
    execute ← required "job executor must not be nil" execute
    now ← required "clock must not be nil" now
    observer ← resolve_lifecycle_observer observers
    ok (record {
      repository = repository;
      enqueue = enqueue;
      execute = execute;
      now = now;
      status_persisted = observer;
    })

  -- NewCreateJob
  unfoldable pub new_create_job :
      Option (JobRepository W)
      → Option (Text → Action W (Unit {0}))
      → Option (Action W Text)
      → Option (W → Time × W)
      → List (Option (Observer W))
      → Result (CreateJob W)
  new_create_job repository enqueue new_id now observers = do
    repository ← required "job repository must not be nil" repository
    enqueue ← required "job queue must not be nil" enqueue
    new_id ← required "ID generator must not be nil" new_id
    now ← required "clock must not be nil" now
    observer ← resolve_lifecycle_observer observers
    ok (record {
      repository = repository;
      enqueue = enqueue;
      new_id = new_id;
      now = now;
      status_persisted = observer;
    })

  -- NewGetJob
  unfoldable pub new_get_job : Option (JobRepository W) → Result (JobRepository W)
  new_get_job repository = required "job repository must not be nil" repository

  -- No observer, or one that is not nil.
  abbrev pub AreObservers : List (Option (Observer W)) → Type 0
  AreObservers [] = Unit {0}
  AreObservers (some observer ∷ []) = Unit {0}
  AreObservers (none ∷ []) = ⊥
  AreObservers (_ ∷ _ ∷ _) = ⊥

  observers_iff :
      (observers : List (Option (Observer W)))
      → (is_ok (resolve_lifecycle_observer observers) ≡ true) ↔ AreObservers observers
  unfolding resolve_lifecycle_observer
  observers_iff [] = ground arith
  observers_iff (none ∷ []) = ground arith
  observers_iff (some o ∷ []) = ground arith
  observers_iff (none ∷ b ∷ rest) = ground arith
  observers_iff (some o ∷ b ∷ rest) = ground arith

  -- NewProcessJob and NewCreateJob succeed exactly if no dependency is nil and at most one observer is
  -- given, which is not nil.
  pub constructors_iff :
      (repository : Option (JobRepository W)) (enqueue : Option (Text → Action W (Unit {0})))
      (execute : Option (Job → Action W (Unit {0}))) (new_id : Option (Action W Text))
      (now : Option (W → Time × W)) (observers : List (Option (Observer W)))
      → ((is_ok (new_process_job repository enqueue execute now observers) ≡ true) ↔ (
          IsGiven repository
          × IsGiven enqueue
          × IsGiven execute
          × IsGiven now
          × AreObservers observers))
        × ((is_ok (new_create_job repository enqueue new_id now observers) ≡ true) ↔ (
            IsGiven repository
            × IsGiven enqueue
            × IsGiven new_id
            × IsGiven now
            × AreObservers observers))
  unfolding new_process_job new_create_job
  constructors_iff repository enqueue execute new_id now observers =
      let o = observers_iff observers in (ground arith, ground arith)
