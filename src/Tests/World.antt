-- ===== src/Tests/World.antt =====
-- A world in memory for the ports: a table, a queue, a clock that ticks. The executor is one that
-- always succeeds or, if it is broken, always fails. It satisfies the laws of the ports.
use async_job_poc.Base.{
  ℕ, suc, ◌+◌, ◌≡◌, refl, inl, inr, Bool, true, false, Option, none, some, Option-cases, List, ◌∷◌,
  arith, if◌then◌else◌,
}
use async_job_poc.Text.{Text, bytes, text_eq}
use async_job_poc.Text.Equality.{text_eq_iff, text_eq_refl}
use async_job_poc.Time.{Time, zero_instant}
use async_job_poc.Errors.{
  Error, foreign, sentinel, job_not_found, job_already_exists, Result, ok, err,
}
use async_job_poc.Job.Entity.{Job}
use async_job_poc.UseCase.ProcessJob.Liveness.{IsHealthy}
use async_job_poc.UseCase.Action.{Action}
use async_job_poc.UseCase.Ports.{
  JobRepository, Ports, PortLaws, View, Same, SameBut, overwrite, row_of,
}

pub record World : Type 0 where
  pub table : Text → Option Job
  pub queue : List Text
  pub runs : ℕ
  pub clock : ℕ

abbrev pub put : (Text → Option Job) → Text → Job → Text → Option Job
put table id j o = if text_eq o id then some j else table o

abbrev keep : Time → Time
keep t = t

abbrev create_in : Option Job → Job → Action World (Unit {0})
create_in none j w = (ok tt, record w { table = put w.table j.id (row_of keep (λ s. s) j) })
create_in (some k) j w = (err (sentinel job_already_exists), w)

abbrev get_in : Option Job → Text → Action World Job
get_in none id w = (err (sentinel job_not_found), w)
get_in (some j) id w = if text_eq j.id id then (ok j, w) else (err (sentinel job_not_found), w)

abbrev update_in : Option Job → Job → Action World (Unit {0})
update_in none j w = (err (sentinel job_not_found), w)
update_in (some k) j w = (ok tt, record w { table = put w.table j.id (overwrite keep k j) })

abbrev failure_of : Bool → Result (Unit {0})
failure_of true = err (foreign (bytes "executor is broken"))
failure_of false = ok tt

abbrev pub an_id : Text
an_id = bytes "123e4567-e89b-42d3-a456-426614174000"

abbrev pub at : ℕ → Time
at n = record { instant = zero_instant + n; location = 0 }

abbrev pub repository : JobRepository World
repository = record {
  create = λ j w. create_in (w.table j.id) j w;
  get_by_id = λ id w. get_in (w.table id) id w;
  update = λ j w. update_in (w.table j.id) j w;
}

abbrev pub ports : Bool → Ports World
ports broken = record {
  repository = repository;
  enqueue = λ id w. (ok tt, record w { queue = id ∷ w.queue });
  execute = λ j w. (failure_of broken, record w { runs = w.runs + 1 });
  now = λ w. (at (suc w.clock), record w { clock = suc w.clock });
  new_id = λ w. (ok an_id, w);
  status_persisted = λ j previous w. (tt, w);
}

abbrev pub view : View World
view = record { stored = λ w. w.table; queued = λ w. w.queue; runs = λ w. w.runs }

pub create_lem :
    (j : Job) (w : World)
    → (repository.create j w).0 ≡ ok tt
    → (w.table j.id ≡ none) × ((repository.create j w).1.table j.id ≡ some (row_of keep (λ s. s) j))
create_lem j w h = ground (arith, text_eq_refl j.id)

pub create_err_lem :
    (j : Job) (w : World) {e : Error}
    → (repository.create j w).0 ≡ err e
    → (repository.create j w).1.table j.id ≡ w.table j.id
create_err_lem j w h = ground arith

pub create_other_lem : (j : Job) (w : World) → SameBut view j.id w (repository.create j w).1
create_other_lem j w = elim (Option-cases (w.table j.id)) [
  | inl p ↦
      rw p
        (record { stored = λ o h. ground (arith, text_eq_iff o j.id); queued = refl; runs = refl })
  | inr (k, p) ↦ rw p (record { stored = λ o h. refl; queued = refl; runs = refl })
]

pub get_lem :
    (id : Text) (w : World) {j : Job}
    → (repository.get_by_id id w).0 ≡ ok j
    → (w.table id ≡ some j) × (j.id ≡ id)
get_lem id w {j} h = elim (Option-cases (w.table id)) [
  | inl p ↦ absurd (ground arith)
  | inr (k, p) ↦ ground (arith, text_eq_iff k.id id)
]

pub get_same_lem : (id : Text) (w : World) → (repository.get_by_id id w).1 ≡ w
get_same_lem id w = ground arith

pub update_lem :
    (j k : Job) (w : World)
    → (repository.update j w).0 ≡ ok tt
    → w.table j.id ≡ some k
    → (repository.update j w).1.table j.id ≡ some (overwrite keep k j)
update_lem j k w h p = rw p (rw (text_eq_refl j.id))

pub update_err_lem :
    (j k : Job) (w : World) {e : Error}
    → (repository.update j w).0 ≡ err e
    → w.table j.id ≡ some k
    → (repository.update j w).1.table j.id ≡ some k
update_err_lem j k w h p = absurd (ground arith)

pub update_other_lem : (j : Job) (w : World) → SameBut view j.id w (repository.update j w).1
update_other_lem j w = elim (Option-cases (w.table j.id)) [
  | inl p ↦ rw p (record { stored = λ o h. refl; queued = refl; runs = refl })
  | inr (k, p) ↦
      rw p
        (record { stored = λ o h. ground (arith, text_eq_iff o j.id); queued = refl; runs = refl })
]

pub unchanged : (w : World) → Same view w w
unchanged w = record { stored = λ id. refl; queued = refl; runs = refl }

abbrev pub laws : (broken : Bool) → PortLaws (ports broken)
laws broken = record {
  view = view;
  round = keep;
  normalize = λ s. s;
  create_ok = λ j w n h. create_lem j w h;
  create_err = λ j w n h. inl (create_err_lem j w h);
  create_other = create_other_lem;
  get_by_id_ok = λ id w h. get_lem id w h;
  get_by_id_same = λ id w. rw (get_same_lem id w) (unchanged w);
  update_ok = λ j k w v h p. update_lem j k w h p;
  update_err = λ j k w v h p. inl (update_err_lem j k w h p);
  update_other = update_other_lem;
  enqueue_ok = λ id w h. refl;
  enqueue_err = λ id w h. inr refl;
  enqueue_stored = λ id w o. refl;
  enqueue_runs = λ id w. refl;
  execute_stored = λ j w o. refl;
  execute_queued = λ j w. refl;
  execute_runs = λ j w. refl;
  now_same = λ w. record { stored = λ id. refl; queued = refl; runs = refl };
  new_id_same = unchanged;
  status_persisted_same = λ j previous w. unchanged w;
}

pub found :
    (id : Text) (k : Job) (w : World)
    → w.table id ≡ some k
    → k.id ≡ id
    → (repository.get_by_id id w).0 ≡ ok k
found id k w h same = ground (arith, text_eq_iff k.id id)

pub updated : (j k : Job) (w : World) → w.table j.id ≡ some k → (repository.update j w).0 ≡ ok tt
updated j k w h = ground arith

pub update_clock : (j : Job) (w : World) → (repository.update j w).1.clock ≡ w.clock
update_clock j w = ground arith

pub get_clock : (id : Text) (w : World) → (repository.get_by_id id w).1.clock ≡ w.clock
get_clock id w = ground arith

abbrev pub health : (broken : Bool) → IsHealthy (ports broken) (laws broken)
health broken = record {
  get_ok = found;
  update_ok = updated;
  enqueue_ok = λ id w v. refl;
  reading = λ w. zero_instant + w.clock;
  now_from = λ w. omega arith;
  now_to = λ w. omega arith;
  now_not_zero = λ w. omega arith;
  get_reading = λ id w. omega (arith, get_clock id w);
  update_reading = λ j w. omega (arith, update_clock j w);
  observe_reading = λ j previous w. omega arith;
  execute_reading = λ j w. omega arith;
}
