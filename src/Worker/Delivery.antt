-- ===== src/Worker/Delivery.antt =====
-- Where the IDs that the dispatcher dequeues go.
use async_job_poc.Base.{
  ℕ, ◌+◌, ◌≤◌, ◌≡◌, refl, ap, ◌⊎◌, inl, inr, Bool, some, Option-cases, List, [], ◌∷◌, ◌++◌, length,
  All, total, total-eq_zero, All-map, total-set, total-replicate, if◌then◌else◌, arith,
}
use async_job_poc.Text.{Text, text_eq}
use async_job_poc.Errors.{Result, ok, err}
use async_job_poc.Worker.Dispatcher.{
  DispatcherState, dequeuing, waiting, closed, sending, after_dequeue,
}
use async_job_poc.Worker.Processor.{WorkerState, receiving, processing, stopped, after_execute}
use async_job_poc.Worker.Cases.{hand_over-cases, stop-cases, finish-cases}
use async_job_poc.Worker.{
  Pool, Event, cancel, dequeue, timer, dispatcher_done, hand_over, worker_done, channel_closed,
  finish, start, step, run, is_closed, worker_count,
}

-- The ID that the dispatcher holds.
abbrev pub in_hand : DispatcherState → List Text
in_hand (sending id) = id ∷ []
in_hand dequeuing = []
in_hand waiting = []
in_hand closed = []

abbrev pub count : Text → List Text → ℕ
count id [] = 0
count id (x ∷ xs) = (if text_eq x id then 1 else 0) + count id xs

-- 1 for a worker that executes `id`.
abbrev pub executes : Text → WorkerState → ℕ
executes id (processing x) = if text_eq x id then 1 else 0
executes id receiving = 0
executes id stopped = 0

-- Every dequeued ID was handed over, in the order of the queue, but for one that the dispatcher holds
-- or, once it has returned, dropped. Of an ID that was handed over, every copy has been executed or
-- is with a worker.
pub record IsAccounted (p : Pool) : Type 0 where
  pub order : p.taken ≡ in_hand p.dispatcher ++ (p.dropped ++ p.handed)
  pub lost : length p.dropped ≤ 1
  pub open_none : (p.dropped ≡ []) ⊎ (p.dispatcher ≡ closed)
  pub executed :
      (id : Text) → count id p.handed ≡ count id p.finished + total (executes id) p.workers

pub start-IsAccounted : IsAccounted start
unfolding start
start-IsAccounted = record {
  order = refl;
  lost = omega arith;
  open_none = inl refl;
  executed = λ id. omega (arith, total-replicate (executes id) worker_count receiving);
}

step-order :
    (p : Pool) (e : Event) {q : Pool}
    → step p e ≡ some q
    → IsAccounted p
    → (q.taken ≡ in_hand q.dispatcher ++ (q.dropped ++ q.handed))
      × (length q.dropped ≤ 1)
      × ((q.dropped ≡ []) ⊎ (q.dispatcher ≡ closed))
unfolding step after_dequeue
step-order p cancel h a = ground arith
step-order p (dequeue (ok id)) h a = ground arith
step-order p (dequeue (err e)) h a = ground arith
step-order p timer h a = ground arith
step-order p dispatcher_done h a = ground arith
step-order p (hand_over i) h a = ground arith
step-order p (worker_done i) h a = ground arith
step-order p (channel_closed i) h a = ground arith
step-order p (finish i r) h a = ground arith

executes-after :
    (cancelled : Bool) (r : Result (Unit {0})) (id : Text)
    → executes id (after_execute cancelled r) ≡ 0
unfolding after_execute
executes-after cancelled r id = ground arith

step-executed :
    (p : Pool) (e : Event) {q : Pool} (id : Text)
    → step p e ≡ some q
    → count id p.handed ≡ count id p.finished + total (executes id) p.workers
    → count id q.handed ≡ count id q.finished + total (executes id) q.workers
unfolding step after_execute
step-executed p cancel id h a = ground arith
step-executed p (dequeue r) id h a = ground arith
step-executed p timer id h a = ground arith
step-executed p dispatcher_done id h a = ground arith
step-executed p (hand_over i) id h a =
    let (x, sends, at, e) = hand_over-cases p i h in
    rw e (ground (arith, total-set (executes id) p.workers i receiving (processing x) at))
step-executed p (worker_done i) id h a =
    let (test, at, e) = stop-cases p p.cancelled i h in
    rw e (omega (arith, total-set (executes id) p.workers i receiving stopped at))
step-executed p (channel_closed i) id h a =
    let (test, at, e) = stop-cases p (is_closed p.dispatcher) i h in
    rw e (omega (arith, total-set (executes id) p.workers i receiving stopped at))
step-executed p (finish i r) id h a =
    let (x, at, e) = finish-cases p i r h in
    let left = executes-after p.cancelled r id in
    rw e (
      omega (
        arith,
        left,
        total-set (executes id) p.workers i (processing x) (after_execute p.cancelled r) at,
      ))

pub step-IsAccounted :
    (p : Pool) (e : Event) {q : Pool} → step p e ≡ some q → IsAccounted p → IsAccounted q
step-IsAccounted p e h a =
    let (order, lost, open_none) = step-order p e h a in
    record {
      order = order;
      lost = lost;
      open_none = open_none;
      executed = λ id. step-executed p e id h (a.executed id);
    }

run-IsAccounted :
    (es : List Event) (p : Pool) {q : Pool} → run p es ≡ some q → IsAccounted p → IsAccounted q
unfolding run
run-IsAccounted [] p h a = ground arith
run-IsAccounted (e ∷ es) p h a = elim (Option-cases (step p e)) [
  | inl none_left ↦ absurd (ground arith)
  | inr (m, k) ↦ run-IsAccounted es m (ground arith) (step-IsAccounted p e k a)
]

-- Run returns once the dispatcher and all workers have.
pub record IsReturned (p : Pool) : Type 0 where
  pub dispatcher : p.dispatcher ≡ closed
  pub workers : All (λ w. w ≡ stopped) p.workers

pub count-append : (id : Text) (xs ys : List Text) → count id (xs ++ ys) ≡ count id xs + count id ys
count-append id [] ys = omega arith
count-append id (x ∷ xs) ys = omega (arith, count-append id xs ys)

-- In whatever order the dispatcher, the five workers and a cancellation take their turns, and
-- whatever Dequeue and Execute return, the dequeued IDs go to the workers in the order of the queue,
-- each to one worker, but for one ID at most, which the dispatcher holds or has dropped; and each
-- that a worker got is with the worker, or was executed once for each time it was dequeued.
pub run-start-IsAccounted : (es : List Event) {p : Pool} → run start es ≡ some p → IsAccounted p
run-start-IsAccounted es h = run-IsAccounted es start h start-IsAccounted

-- When Run has returned, every ID was executed as often as it was dequeued, but for one ID at most,
-- which the dispatcher dropped.
pub returned_delivers :
    (es : List Event) {p : Pool}
    → run start es ≡ some p
    → IsReturned p
    → (length p.dropped ≤ 1)
      × ((id : Text) → count id p.taken ≡ count id p.finished + count id p.dropped)
returned_delivers es {p} h r =
    let a = run-start-IsAccounted es h in
    (
      a.lost,
      λ id.
          let none_held : in_hand p.dispatcher ++ (p.dropped ++ p.handed) ≡ p.dropped ++ p.handed =
            rw r.dispatcher refl in
          rw (a.order, none_held)
            (omega (
              arith,
              count-append id p.dropped p.handed,
              a.executed id,
              total-eq_zero (executes id) p.workers
                  (All-map p.workers (λ w e. ap (executes id) e) r.workers),
            )),
    )
