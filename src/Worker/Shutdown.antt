-- ===== src/Worker/Shutdown.antt =====
-- The end of Run: what is left to do once the context is cancelled.
use async_job_poc.Base.{
  ℕ, ◌+◌, ◌*◌, ◌≤◌, ◌≡◌, ◌≢◌, refl, ◌∙◌, ◌⊎◌, inl, inr, true, some, Option-cases, List, [], ◌∷◌,
  length, length-set, All-map, get_elem?, set, total-ne_zero, total-zero, arith,
}
use async_job_poc.Errors.{ok, err, sentinel, canceled}
use async_job_poc.Worker.Dispatcher.{
  DispatcherState, dequeuing, waiting, closed, sending, after_dequeue, after_wait,
  dispatcher_context_finished,
}
use async_job_poc.Worker.Processor.{WorkerState, receiving, processing, stopped, after_execute}
use async_job_poc.Worker.Delivery.{IsReturned}
use async_job_poc.Worker.Work.{worker_work, work, own, fetches, step-work, work-le}
use async_job_poc.Worker.Cases.{hand_over-cases, stop-cases, finish-cases}
use async_job_poc.Worker.{
  Pool, Event, cancel, dequeue, timer, dispatcher_done, hand_over, worker_done, channel_closed,
  finish, start, step, run, is_closed,
}

-- The context stays cancelled, and no worker is added or removed.
step-cancelled :
    (p : Pool) (e : Event) {q : Pool} → step p e ≡ some q → p.cancelled ≡ true → q.cancelled ≡ true
unfolding step
step-cancelled p cancel h c = ground arith
step-cancelled p (dequeue r) h c = ground arith
step-cancelled p timer h c = ground arith
step-cancelled p dispatcher_done h c = ground arith
step-cancelled p (hand_over i) h c = ground arith
step-cancelled p (worker_done i) h c = ground arith
step-cancelled p (channel_closed i) h c = ground arith
step-cancelled p (finish i r) h c = ground arith

step-length :
    (p : Pool) (e : Event) {q : Pool} → step p e ≡ some q → length q.workers ≡ length p.workers
unfolding step
step-length p cancel h = ground arith
step-length p (dequeue r) h = ground arith
step-length p timer h = ground arith
step-length p dispatcher_done h = ground arith
step-length p (hand_over i) h =
    let (x, sends, at, e) = hand_over-cases p i h in rw e (length-set p.workers i (processing x))
step-length p (worker_done i) h =
    let (test, at, e) = stop-cases p p.cancelled i h in rw e (length-set p.workers i stopped)
step-length p (channel_closed i) h =
    let (test, at, e) = stop-cases p (is_closed p.dispatcher) i h in
    rw e (length-set p.workers i stopped)
step-length p (finish i r) h =
    let (x, at, e) = finish-cases p i r h in
    rw e (length-set p.workers i (after_execute p.cancelled r))

abbrev pub sum_of : (Event → ℕ) → List Event → ℕ
sum_of f [] = 0
sum_of f (e ∷ es) = f e + sum_of f es

run-work :
    (es : List Event) (p : Pool) {q : Pool}
    → run p es ≡ some q
    → p.cancelled ≡ true
    → sum_of own es + work q ≤ work p + 3 * sum_of fetches es
unfolding run
run-work [] p h c = ground arith
run-work (e ∷ es) p {q} h c = elim (Option-cases (step p e)) [
  | inl stuck ↦ absurd (ground arith)
  | inr (m, k) ↦
      omega
        (arith, step-work p e k c, run-work es m {q = q} (ground arith) (step-cancelled p e k c))
]

run-length :
    (es : List Event) (p : Pool) {q : Pool}
    → run p es ≡ some q
    → length q.workers ≡ length p.workers
unfolding run
run-length [] p h = ground arith
run-length (e ∷ es) p {q} h = elim (Option-cases (step p e)) [
  | inl stuck ↦ absurd (ground arith)
  | inr (m, k) ↦ run-length es m {q = q} (ground arith) ∙ step-length p e k
]

run-cancelled :
    (es : List Event) (p : Pool) {q : Pool}
    → run p es ≡ some q
    → p.cancelled ≡ true
    → q.cancelled ≡ true
unfolding run
run-cancelled [] p h c = ground arith
run-cancelled (e ∷ es) p {q} h c = elim (Option-cases (step p e)) [
  | inl stuck ↦ absurd (ground arith)
  | inr (m, k) ↦ run-cancelled es m {q = q} (ground arith) (step-cancelled p e k c)
]

-- An event other than a cancellation or a Dequeue that returns an ID can happen.
pub record CanStep (p : Pool) : Type 0 where
  pub event : Event
  pub next : Pool
  pub happens : step p event ≡ some next
  pub is_own : own event ≡ 1
  pub no_fetch : fetches event ≡ 0

dispatcher-CanStep : (p : Pool) → p.cancelled ≡ true → (p.dispatcher ≡ closed) ⊎ CanStep p
unfolding step after_dequeue dispatcher_context_finished after_wait
dispatcher-CanStep p c = go p.dispatcher refl
  where
    go : (d : DispatcherState) → p.dispatcher ≡ d → (p.dispatcher ≡ closed) ⊎ CanStep p
    go closed e = inl e
    go dequeuing e = inr (record {
      event = dequeue (err (sentinel canceled));
      next = record p { dispatcher = closed };
      happens = ground arith;
      is_own = refl;
      no_fetch = refl;
    })
    go waiting e = inr (record {
      event = dispatcher_done;
      next = record p { dispatcher = closed };
      happens = ground arith;
      is_own = refl;
      no_fetch = refl;
    })
    go (sending id) e = inr (record {
      event = dispatcher_done;
      next = record p { dispatcher = closed; dropped = id ∷ p.dropped };
      happens = ground arith;
      is_own = refl;
      no_fetch = refl;
    })

worker-CanStep :
    (p : Pool) (i : ℕ) (w : WorkerState)
    → p.cancelled ≡ true
    → get_elem? p.workers i ≡ some w
    → worker_work w ≢ 0
    → CanStep p
unfolding step
worker-CanStep p i stopped c at h = absurd (h refl)
worker-CanStep p i receiving c at h = record {
  event = worker_done i;
  next = record p { workers = set p.workers i stopped };
  happens = ground arith;
  is_own = refl;
  no_fetch = refl;
}
worker-CanStep p i (processing x) c at h = record {
  event = finish i (ok tt);
  next = record p {
    workers = set p.workers i (after_execute p.cancelled (ok tt));
    finished = x ∷ p.finished;
  };
  happens = ground arith;
  is_own = refl;
  no_fetch = refl;
}

idle : (w : WorkerState) → worker_work w ≡ 0 → w ≡ stopped
idle w h = ground arith

progress : (p : Pool) → p.cancelled ≡ true → IsReturned p ⊎ CanStep p
progress p c = elim (dispatcher-CanStep p c) [
  | inr can ↦ inr can
  | inl done ↦ elim (total-ne_zero worker_work p.workers) [
    | inl none_left ↦ inl (record {
      dispatcher = done;
      workers = All-map p.workers idle (total-zero worker_work p.workers none_left);
    })
    | inr (i, w, at, busy) ↦ inr (worker-CanStep p i w c at busy)
  ]
]

-- Once the context is cancelled, at most 13 events of the dispatcher and the workers are left, and
-- 3 for each Dequeue that still returns an ID; and as long as Run has not returned, another event
-- of theirs can happen that is not such a Dequeue.
pub shutdown :
    (es fs : List Event) {p q : Pool}
    → run start es ≡ some p
    → p.cancelled ≡ true
    → run p fs ≡ some q
    → (sum_of own fs ≤ 13 + 3 * sum_of fetches fs) × (IsReturned q ⊎ CanStep q)
unfolding start
shutdown es fs {p} {q} h c k = (
  omega (arith, run-work fs p k c, work-le p, run-length es start {q = p} h),
  progress q (run-cancelled fs p k c),
)
