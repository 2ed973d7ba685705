-- ===== src/Tests/Cluster.antt =====
-- A schedule of the API and the worker pool in memory.
use async_job_poc.Base.{true, replicate, ◌≡◌, refl, inl, some, none, List, [], ◌∷◌, ◌++◌}
use async_job_poc.Text.{Text, bytes, text_eq}
use async_job_poc.Errors.{Error, Result, ok, err, foreign}
use async_job_poc.Job.Id
use async_job_poc.Job.Entity.{Job}
use async_job_poc.UseCase.Ports.{JobConsumer}
use async_job_poc.UseCase.System.{AreStored}
use async_job_poc.UseCase.ProcessJob.{process_job}
use async_job_poc.Worker
use async_job_poc.Worker.Processor
use async_job_poc.Worker.Dispatcher.{after_dequeue}
use async_job_poc.Cluster.{Node, Turn, dequeue, execute, other, begin, put, turn, turns, is_quiet}
use async_job_poc.Cluster.Consumer.{AreValid, ConsumerLaws}
use async_job_poc.Cluster.Stored.{executes_known}
use async_job_poc.Tests.World.{World, ports, laws, an_id}
use async_job_poc.Tests.Jobs.{one_entry, verbs, pending_job}
use async_job_poc.Tests.UseCases.{healthy}

abbrev pop : List Text → Result Text × List Text
pop [] = (err (foreign (bytes "timeout")), [])
pop (x ∷ []) = (ok x, [])
pop (x ∷ y ∷ rest) = ((pop (y ∷ rest)).0, x ∷ (pop (y ∷ rest)).1)

abbrev dequeue_id : JobConsumer World
dequeue_id w = ((pop w.queue).0, record w { queue = (pop w.queue).1 })

pop_ok : (xs : List Text) {id : Text} → (pop xs).0 ≡ ok id → xs ≡ (pop xs).1 ++ id ∷ []
pop_ok [] h = cc
pop_ok (x ∷ []) h = cc
pop_ok (x ∷ y ∷ rest) h = let e = pop_ok (y ∷ rest) h in cc

pop_err : (xs : List Text) {e : Error} → (pop xs).0 ≡ err e → (pop xs).1 ≡ xs
pop_err [] h = refl
pop_err (x ∷ []) h = cc
pop_err (x ∷ y ∷ rest) h = let e = pop_err (y ∷ rest) h in cc

abbrev consumer_laws : ConsumerLaws (laws true) dequeue_id
consumer_laws = record {
  dequeue_ok = λ w v h. pop_ok w.queue h;
  dequeue_err = λ w h. inl (pop_err w.queue h);
  dequeue_stored = λ w id. refl;
  dequeue_runs = λ w. refl;
}

abbrev one_queued : World
one_queued = record healthy { queue = an_id ∷ [] }

-- The executor is broken, so that the call of Execute in the first worker queues a retry.
abbrev schedule : List Turn
schedule = dequeue ∷ other (Worker.hand_over 0) ∷ execute 0 ∷ []

abbrev processed : Result (Unit {0}) × World
processed = process_job verbs (ports true) an_id healthy

abbrev given : Node World
given = record {
  pool = record Worker.start {
    workers = Processor.processing an_id ∷ replicate 4 Processor.receiving;
    taken = an_id ∷ [];
    handed = an_id ∷ [];
  };
  world = processed.1;
  returns = put (λ i. none) 0 (some processed.0);
}

gives : turns one_entry verbs (ports true) dequeue_id (begin one_queued) schedule ≡ some given
unfolding turns turn Worker.start Worker.step is_quiet after_dequeue
gives = refl

one_valid : AreValid (an_id ∷ [])
unfolding Id.is_valid
one_valid = (refl, tt)

one_there : healthy.table an_id ≡ some pending_job
unfolding text_eq
one_there = refl

one_stored : AreStored one_entry verbs (ports true) (laws true) one_queued
unfolding AreStored
one_stored = ((pending_job, one_there), tt)

executes_known_example :
    (Id.is_valid an_id ≡ true) × ((r : Job) × (given.world.table an_id ≡ some r))
executes_known_example =
    executes_known one_entry verbs (ports true) (laws true) dequeue_id consumer_laws schedule
      one_queued 0 gives one_valid one_stored refl
