-- ===== src/UseCase/Ports.antt =====
-- internal/application/ports: the operations that the use cases call, over a state `W` of
-- everything outside the process (database, queue, clock, random source, log, contexts), and the
-- laws that the proofs rely on. A port that is given a *job.Job does not change it.
pub mod Frames
use async_job_poc.Base.{true, ℕ, ◌≡◌, ◌≢◌, ◌⊎◌, Option, none, some, List, ◌∷◌, ◌+◌}
use async_job_poc.Text.{Text}
use async_job_poc.Time.{Time}
use async_job_poc.Errors.{Error, ok, err}
use async_job_poc.Job.Id
use async_job_poc.Job.Kind
use async_job_poc.Job.Status
use async_job_poc.Job.Entity.{Job}
use async_job_poc.UseCase.Action.{Action}
use async_job_poc.UseCase.Observer.{Observer}

pub record JobRepository (W : Type 0) : Type 0 where
  pub create : Job → Action W (Unit {0})
  pub get_by_id : Text → Action W Job
  pub update : Job → Action W (Unit {0})

-- JobQueue, JobConsumer, JobExecutor, Clock and IDGenerator: the one method of each.
abbrev pub JobQueue : Type 0 → Type 0
JobQueue W = Text → Action W (Unit {0})

abbrev pub JobConsumer : Type 0 → Type 0
JobConsumer W = Action W Text

abbrev pub JobExecutor : Type 0 → Type 0
JobExecutor W = Job → Action W (Unit {0})

abbrev pub Clock : Type 0 → Type 0
Clock W = W → Time × W

abbrev pub IdGenerator : Type 0 → Type 0
IdGenerator W = Action W Text

pub record Ports (W : Type 0) : Type 0 where
  pub repository : JobRepository W
  pub enqueue : JobQueue W
  pub execute : JobExecutor W
  pub now : Clock W
  pub new_id : IdGenerator W
  -- StatusPersisted, with the previous status
  pub status_persisted : Observer W

abbrev pub round_pointer : (Time → Time) → Option Time → Option Time
round_pointer round none = none
round_pointer round (some t) = some (round t)

-- The row of `k` after an update by `j`: the columns that Update selects are those of `j`, the
-- times as the column keeps them.
abbrev pub overwrite : (Time → Time) → Job → Job → Job
overwrite round k j = record k {
  status = j.status;
  retry_count = j.retry_count;
  max_retries = j.max_retries;
  last_error = j.last_error;
  updated_at = round j.updated_at;
  started_at = round_pointer round j.started_at;
  completed_at = round_pointer round j.completed_at;
}

-- The row of a job that is inserted: the payload as the column keeps it, and the times.
abbrev pub row_of : (Time → Time) → (Text → Text) → Job → Job
row_of round normalize j = record j {
  payload = normalize j.payload;
  created_at = round j.created_at;
  updated_at = round j.updated_at;
  started_at = round_pointer round j.started_at;
  completed_at = round_pointer round j.completed_at;
}

-- What is visible of the world from the database, the queue and the executor: the jobs that a
-- lookup would find, the list of queued IDs with the newest first, the number of executor calls.
pub record View (W : Type 0) : Type 0 where
  pub stored : W → Text → Option Job
  pub queued : W → List Text
  pub runs : W → ℕ

-- Nothing visible changes.
pub record Same {W : Type 0} (v : View W) (w w' : W) : Type 0 where
  pub stored : (id : Text) → v.stored w' id ≡ v.stored w id
  pub queued : v.queued w' ≡ v.queued w
  pub runs : v.runs w' ≡ v.runs w

-- Nothing visible changes but what is stored under `id`.
pub record SameBut {W : Type 0} (v : View W) (id : Text) (w w' : W) : Type 0 where
  pub stored : (other : Text) → other ≢ id → v.stored w' other ≡ v.stored w other
  pub queued : v.queued w' ≡ v.queued w
  pub runs : v.runs w' ≡ v.runs w

-- The ID, the type and the status of a job are among those that the domain allows.
abbrev pub IsNamed : Job → Type 0
IsNamed j =
    (Id.is_valid j.id ≡ true)
    × (Kind.is_valid j.job_type ≡ true)
    × (Status.is_valid j.status ≡ true)

-- The contract of the ports while no other process writes. A call that reports an error may or may
-- not have had its effect.
pub record PortLaws {W : Type 0} (ports : Ports W) : Type 0 where
  pub view : View W
  pub round : Time → Time
  pub normalize : Text → Text
  pub create_ok :
      (j : Job) (w : W)
      → IsNamed j
      → (ports.repository.create j w).0 ≡ ok tt
      → (view.stored w j.id ≡ none)
        × (view.stored (ports.repository.create j w).1 j.id ≡ some (row_of round normalize j))
  pub create_err :
      (j : Job) (w : W) {e : Error}
      → IsNamed j
      → (ports.repository.create j w).0 ≡ err e
      → (view.stored (ports.repository.create j w).1 j.id ≡ view.stored w j.id)
        ⊎ ((view.stored w j.id ≡ none)
            × (view.stored (ports.repository.create j w).1 j.id ≡ some (row_of round normalize j)))
  pub create_other : (j : Job) (w : W) → SameBut view j.id w (ports.repository.create j w).1
  pub get_by_id_ok :
      (id : Text) (w : W) {j : Job}
      → (ports.repository.get_by_id id w).0 ≡ ok j
      → (view.stored w id ≡ some j) × (j.id ≡ id)
  pub get_by_id_same : (id : Text) (w : W) → Same view w (ports.repository.get_by_id id w).1
  pub update_ok :
      (j k : Job) (w : W)
      → Status.is_valid j.status ≡ true
      → (ports.repository.update j w).0 ≡ ok tt
      → view.stored w j.id ≡ some k
      → view.stored (ports.repository.update j w).1 j.id ≡ some (overwrite round k j)
  pub update_err :
      (j k : Job) (w : W) {e : Error}
      → Status.is_valid j.status ≡ true
      → (ports.repository.update j w).0 ≡ err e
      → view.stored w j.id ≡ some k
      → (view.stored (ports.repository.update j w).1 j.id ≡ some k)
        ⊎ (view.stored (ports.repository.update j w).1 j.id ≡ some (overwrite round k j))
  pub update_other : (j : Job) (w : W) → SameBut view j.id w (ports.repository.update j w).1
  pub enqueue_ok :
      (id : Text) (w : W)
      → (ports.enqueue id w).0 ≡ ok tt
      → view.queued (ports.enqueue id w).1 ≡ id ∷ view.queued w
  pub enqueue_err :
      (id : Text) (w : W) {e : Error}
      → (ports.enqueue id w).0 ≡ err e
      → (view.queued (ports.enqueue id w).1 ≡ view.queued w)
        ⊎ (view.queued (ports.enqueue id w).1 ≡ id ∷ view.queued w)
  pub enqueue_stored :
      (id : Text) (w : W) (other : Text)
      → view.stored (ports.enqueue id w).1 other ≡ view.stored w other
  pub enqueue_runs : (id : Text) (w : W) → view.runs (ports.enqueue id w).1 ≡ view.runs w
  pub execute_stored :
      (j : Job) (w : W) (other : Text)
      → view.stored (ports.execute j w).1 other ≡ view.stored w other
  pub execute_queued : (j : Job) (w : W) → view.queued (ports.execute j w).1 ≡ view.queued w
  pub execute_runs : (j : Job) (w : W) → view.runs (ports.execute j w).1 ≡ view.runs w + 1
  pub now_same : (w : W) → Same view w (ports.now w).1
  pub new_id_same : (w : W) → Same view w (ports.new_id w).1
  pub status_persisted_same :
      (j : Job) (previous : Text) (w : W) → Same view w (ports.status_persisted j previous w).1
