-- ===== src/Worker/Work.antt =====
-- What is left for the goroutines of Run to do once the context is cancelled, as a number that
-- every event lowers but a Dequeue that returns an ID.
use async_job_poc.Base.{
  ℕ, ◌+◌, ◌*◌, ◌≤◌, ◌≡◌, Bool, true, some, length, total, total-set, total-le, arith,
}
use async_job_poc.Errors.{Result, ok, err}
use async_job_poc.Worker.Dispatcher.{
  DispatcherState, dequeuing, waiting, closed, sending, after_dequeue, dispatcher_context_finished,
}
use async_job_poc.Worker.Processor.{WorkerState, receiving, processing, stopped, after_execute}
use async_job_poc.Worker.Cases.{hand_over-cases, stop-cases, finish-cases}
use async_job_poc.Worker.{
  Pool, Event, cancel, dequeue, timer, dispatcher_done, hand_over, worker_done, channel_closed,
  finish, step, is_closed,
}

-- What is left for a goroutine to do.
abbrev pub dispatcher_work : DispatcherState → ℕ
dispatcher_work closed = 0
dispatcher_work dequeuing = 1
dispatcher_work waiting = 2
dispatcher_work (sending id) = 3

abbrev pub worker_work : WorkerState → ℕ
worker_work stopped = 0
worker_work receiving = 1
worker_work (processing id) = 2

abbrev pub work : Pool → ℕ
work p = dispatcher_work p.dispatcher + total worker_work p.workers

-- 1 for an event other than a cancellation, and 1 for a Dequeue that returns an ID.
abbrev pub own : Event → ℕ
own cancel = 0
own (dequeue r) = 1
own timer = 1
own dispatcher_done = 1
own (hand_over i) = 1
own (worker_done i) = 1
own (channel_closed i) = 1
own (finish i r) = 1

abbrev pub fetches : Event → ℕ
fetches (dequeue (ok id)) = 1
fetches (dequeue (err e)) = 0
fetches cancel = 0
fetches timer = 0
fetches dispatcher_done = 0
fetches (hand_over i) = 0
fetches (worker_done i) = 0
fetches (channel_closed i) = 0
fetches (finish i r) = 0

after_execute-work :
    (cancelled : Bool) (r : Result (Unit {0})) → worker_work (after_execute cancelled r) ≤ 1
unfolding after_execute
after_execute-work cancelled r = ground arith

pub step-work :
    (p : Pool) (e : Event) {q : Pool}
    → step p e ≡ some q
    → p.cancelled ≡ true
    → own e + work q ≤ work p + 3 * fetches e
unfolding step after_dequeue dispatcher_context_finished
step-work p cancel h c = ground arith
step-work p (dequeue (ok id)) h c = ground arith
step-work p (dequeue (err e)) h c = ground arith
step-work p timer h c = ground arith
step-work p dispatcher_done h c = ground arith
step-work p (hand_over i) h c =
    let (x, sends, at, e) = hand_over-cases p i h in
    rw (e, sends) (omega (arith, total-set worker_work p.workers i receiving (processing x) at))
step-work p (worker_done i) h c =
    let (test, at, e) = stop-cases p p.cancelled i h in
    rw e (omega (arith, total-set worker_work p.workers i receiving stopped at))
step-work p (channel_closed i) h c =
    let (test, at, e) = stop-cases p (is_closed p.dispatcher) i h in
    rw e (omega (arith, total-set worker_work p.workers i receiving stopped at))
step-work p (finish i r) h c =
    let (x, at, e) = finish-cases p i r h in
    rw e (
      omega (
        arith,
        after_execute-work p.cancelled r,
        total-set worker_work p.workers i (processing x) (after_execute p.cancelled r) at,
      ))

dispatcher_work-le : (d : DispatcherState) → dispatcher_work d ≤ 3
dispatcher_work-le d = ground arith

worker_work-le : (w : WorkerState) → worker_work w ≤ 2
worker_work-le w = ground arith

pub work-le : (p : Pool) → work p ≤ 3 + 2 * length p.workers
work-le p =
    omega (arith, total-le worker_work 2 worker_work-le p.workers, dispatcher_work-le p.dispatcher)
