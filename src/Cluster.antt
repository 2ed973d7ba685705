-- ===== src/Cluster.antt =====
-- The API and one worker process over one store: CreateJob.Execute on the one side, and on the other
-- the pool of internal/adapters/worker/pool.go, whose dispatcher takes IDs from the queue and whose
-- workers run ProcessJob.Execute. A call of CreateJob, Dequeue or Execute is one step of the store. The
-- worker goes on from a call of Execute at any later time, so that an ID that the call queued may be
-- with another worker by then; the pool's other events come in any order too.
pub mod Consumer
pub mod Steps
pub mod Stored
use async_job_poc.Base.{
  ℕ, ◌==◌, Bool, true, false, Option, none, some, List, [], ◌∷◌, get_elem?, if◌then◌else◌,
}
use async_job_poc.Text.{Text}
use async_job_poc.Errors.{Verbs, Result}
use async_job_poc.Job.Payload.{Unmarshal}
use async_job_poc.UseCase.Action.{Action}
use async_job_poc.UseCase.Ports.{JobConsumer, Ports}
use async_job_poc.UseCase.CreateJob.{CreateJobInput, create_job}
use async_job_poc.UseCase.ProcessJob.{process_job}
use async_job_poc.Worker
use async_job_poc.Worker.{Pool, Event, busy}

pub record Node (W : Type 0) : Type 0 where
  pub pool : Pool
  pub world : W
  -- What Execute has returned to the worker of an index that did not go on yet.
  pub returns : ℕ → Option (Result (Unit {0}))

pub data Turn : Type 0 where
  -- CreateJob.Execute in the API.
  create : CreateJobInput → Turn
  -- The call of Dequeue in the dispatcher.
  dequeue : Turn
  -- The call of Execute in the worker of this index, and how the worker goes on from it.
  execute finish : ℕ → Turn
  -- An event of the pool that calls neither.
  other : Event → Turn

-- The events that are not the return of a call.
unfoldable pub is_quiet : Event → Bool
is_quiet Event.cancel = true
is_quiet (Event.dequeue r) = false
is_quiet Event.timer = true
is_quiet Event.dispatcher_done = true
is_quiet (Event.hand_over i) = true
is_quiet (Event.worker_done i) = true
is_quiet (Event.channel_closed i) = true
is_quiet (Event.finish i r) = false

abbrev pub put :
    (ℕ → Option (Result (Unit {0})))
    → ℕ
    → Option (Result (Unit {0}))
    → ℕ
    → Option (Result (Unit {0}))
put returns i r k = if k == i then r else returns k

module _ {W : Type 0} where
  abbrev pub placed : W → (ℕ → Option (Result (Unit {0}))) → Option Pool → Option (Node W)
  placed w returns none = none
  placed w returns (some p) = some (record { pool = p; world = w; returns = returns })

  -- Run begins.
  abbrev pub begin : W → Node W
  begin w = record { pool = Worker.start; world = w; returns = λ i. none }

  -- The worker goes on when Execute has returned.
  went_on : Node W → ℕ → Option (Result (Unit {0})) → Option (Node W)
  went_on n i none = none
  went_on n i (some r) =
      placed n.world (put n.returns i none) (Worker.step n.pool (Event.finish i r))

module _ {W : Type 0} (unmarshal : Unmarshal) (verbs : Verbs) (ports : Ports W)
    (dequeue_id : JobConsumer W) where
  -- The worker calls Execute on the ID that it received.
  executed : Node W → ℕ → Option Text → Option (Result (Unit {0})) → Option (Node W)
  executed n i (some id) none = some (record n {
    world = (process_job verbs ports id n.world).1;
    returns = put n.returns i (some (process_job verbs ports id n.world).0);
  })
  executed n i none _ = none
  executed n i _ (some r) = none

  unfoldable pub turn : Node W → Turn → Option (Node W)
  unfolding executed went_on
  turn n (create input) = some (record n { world = (create_job unmarshal ports input n.world).1 })
  turn n dequeue =
      placed (dequeue_id n.world).1 n.returns
        (Worker.step n.pool (Event.dequeue (dequeue_id n.world).0))
  turn n (execute i) = executed n i (busy (get_elem? n.pool.workers i)) (n.returns i)
  turn n (finish i) = went_on n i (n.returns i)
  turn n (other e) = if is_quiet e then placed n.world n.returns (Worker.step n.pool e) else none

  -- A schedule; `none` if one of its turns cannot happen.
  unfoldable pub turns : Node W → List Turn → Option (Node W)
  turns n [] = some n
  turns n (t ∷ ts) = elim (turn n t) [ none ↦ none | some m ↦ turns m ts ]
