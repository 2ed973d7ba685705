-- ===== src/Worker/Cases.antt =====
-- What an event that changes a worker found, and what became of that worker.
use async_job_poc.Base.{
  ℕ, ◌≡◌, refl, inl, inr, Bool, true, Option, none, some, Option-cases, ◌∷◌, get_elem?, set, arith,
}
use async_job_poc.Text.{Text}
use async_job_poc.Errors.{Result}
use async_job_poc.Worker.Dispatcher.{DispatcherState, dequeuing, waiting, closed, sending}
use async_job_poc.Worker.Processor.{WorkerState, receiving, processing, stopped, after_execute}
use async_job_poc.Worker.{
  Pool, hand_over, finish, step, on_hand_over, stop_worker, busy, is_receiving,
}

receiving_at : (w : Option WorkerState) → is_receiving w ≡ true → w ≡ some receiving
receiving_at (some receiving) h = refl
receiving_at (some (processing id)) h = cc
receiving_at (some stopped) h = cc
receiving_at none h = cc

pub busy_at : (w : Option WorkerState) {id : Text} → busy w ≡ some id → w ≡ some (processing id)
busy_at (some (processing x)) h = cc
busy_at (some receiving) h = cc
busy_at (some stopped) h = cc
busy_at none h = cc

pub hand_over-cases :
    (p : Pool) (i : ℕ) {q : Pool}
    → step p (hand_over i) ≡ some q
    → (id : Text) × (p.dispatcher ≡ sending id)
      × (get_elem? p.workers i ≡ some receiving)
      × (q ≡ record p {
        dispatcher = dequeuing;
        workers = set p.workers i (processing id);
        handed = id ∷ p.handed;
      })
unfolding step
hand_over-cases p i {q} h = go p.dispatcher refl h
  where
    go :
        (d : DispatcherState)
        → p.dispatcher ≡ d
        → on_hand_over p d i ≡ some q
        → (id : Text) × (p.dispatcher ≡ sending id)
          × (get_elem? p.workers i ≡ some receiving)
          × (q ≡ record p {
            dispatcher = dequeuing;
            workers = set p.workers i (processing id);
            handed = id ∷ p.handed;
          })
    go (sending id) e k =
        (id, e, ground (arith, receiving_at (get_elem? p.workers i)), ground arith)
    go dequeuing e k = cc
    go waiting e k = cc
    go closed e k = cc

pub stop-cases :
    (p : Pool) (test : Bool) (i : ℕ) {q : Pool}
    → stop_worker p test i ≡ some q
    → (test ≡ true)
      × (get_elem? p.workers i ≡ some receiving)
      × (q ≡ record p { workers = set p.workers i stopped })
unfolding stop_worker
stop-cases p test i h =
    (ground arith, ground (arith, receiving_at (get_elem? p.workers i)), ground arith)

pub finish-cases :
    (p : Pool) (i : ℕ) (r : Result (Unit {0})) {q : Pool}
    → step p (finish i r) ≡ some q
    → (id : Text) × (get_elem? p.workers i ≡ some (processing id))
      × (q ≡ record p {
        workers = set p.workers i (after_execute p.cancelled r);
        finished = id ∷ p.finished;
      })
unfolding step
finish-cases p i r h = elim (Option-cases (busy (get_elem? p.workers i))) [
  | inl e ↦ absurd (ground arith)
  | inr (id, e) ↦ (id, busy_at (get_elem? p.workers i) e, ground arith)
]
