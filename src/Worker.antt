-- ===== src/Worker.antt =====
-- internal/adapters/worker/pool.go: the dispatcher and the workers of a pool as goroutines over one
-- unbuffered channel and one context, interleaved in any order. An event is a step of one of them,
-- with what its call returned or which case its select took; calls of Execute by different workers
-- may overlap, since a call ends by an event of its own.
pub mod Dispatcher
pub mod Processor
pub mod Cases
pub mod Delivery
pub mod Outcome
pub mod Work
pub mod Shutdown
use async_job_poc.Base.{
  ℕ, zero, suc, ℤ, pos, Bool, true, false, not, ◌&&◌, Option, none, some, List, [], ◌∷◌, length,
  get_elem?, set, replicate, if◌then◌else◌,
}
use async_job_poc.Text.{Text, bytes}
use async_job_poc.Errors.{
  Piece, text, number, foreign, wrapped, Result, ok, err, ◌>>=◌, ◌>>◌, ensure,
}
use Dispatcher.{
  DispatcherState, dequeuing, waiting, sending, closed, new_dispatcher, after_dequeue, after_wait,
}
use Processor.{
  WorkerState, receiving, processing, stopped, new_processor_worker, after_execute, after_select,
}

abbrev pub worker_count : ℕ
worker_count = 5

-- The loop of NewPool over the worker IDs from `id` on.
unfoldable pub new_workers : (count id : ℕ) → Bool → Bool → Result (List ℤ)
new_workers zero id has_processor has_logger = ok []
new_workers (suc count) id has_processor has_logger = do
  worker ←
      wrapped (text (bytes "create processing worker ") ∷ number (pos id) ∷ text (bytes ": ") ∷ [])
        (new_processor_worker (pos id) has_processor has_logger)
  workers ← new_workers count (suc id) has_processor has_logger
  ok (worker ∷ workers)

-- NewPool, for whether the consumer, the processor and the logger are there: the IDs of the workers.
unfoldable pub new_pool : Bool → Bool → Bool → Result (List ℤ)
new_pool has_consumer has_processor has_logger = do
  ensure has_consumer (foreign (bytes "job consumer must not be nil"))
  ensure has_processor (foreign (bytes "job processor must not be nil"))
  ensure has_logger (foreign (bytes "logger must not be nil"))
  wrapped (text (bytes "create queue dispatcher: ") ∷ []) (new_dispatcher has_consumer has_logger)
  new_workers worker_count 1 has_processor has_logger

-- The state of Run, with three histories, the newest first: the IDs that Dequeue returned, those that
-- went over the channel, and those for which Execute has returned; and the ID that the dispatcher
-- still held when it returned, if there was one.
pub record Pool : Type 0 where
  pub cancelled : Bool
  pub dispatcher : DispatcherState
  pub workers : List WorkerState
  pub taken : List Text
  pub handed : List Text
  pub finished : List Text
  pub dropped : List Text

unfoldable pub start : Pool
start = record {
  cancelled = false;
  dispatcher = dequeuing;
  workers = replicate worker_count receiving;
  taken = [];
  handed = [];
  finished = [];
  dropped = [];
}

-- The worker of an index: whether it stands in its select, and the ID that it executes.
abbrev pub is_receiving : Option WorkerState → Bool
is_receiving (some receiving) = true
is_receiving (some (processing id)) = false
is_receiving (some stopped) = false
is_receiving none = false

abbrev pub busy : Option WorkerState → Option Text
busy (some (processing id)) = some id
busy (some receiving) = none
busy (some stopped) = none
busy none = none

abbrev pub record_taken : Result Text → List Text → List Text
record_taken (ok id) taken = id ∷ taken
record_taken (err e) taken = taken

pub data Event : Type 0 where
  -- The context is cancelled from outside.
  cancel : Event
  -- Dequeue returns.
  dequeue : Result Text → Event
  -- The timer of waitBeforeNextDequeue fires.
  timer : Event
  -- The dispatcher's select, or that of waitBeforeNextDequeue, takes ctx.Done().
  dispatcher_done : Event
  -- The dispatcher sends its ID, and the worker of this index receives it.
  hand_over : ℕ → Event
  -- The worker's select takes ctx.Done(), or finds that the channel is closed.
  worker_done : ℕ → Event
  channel_closed : ℕ → Event
  -- Execute returns in the worker of this index.
  finish : ℕ → Result (Unit {0}) → Event

on_dequeue : Pool → DispatcherState → Result Text → Option Pool
on_dequeue p dequeuing r =
    some (record p { dispatcher = after_dequeue p.cancelled r; taken = record_taken r p.taken })
on_dequeue p waiting r = none
on_dequeue p closed r = none
on_dequeue p (sending id) r = none

on_timer : Pool → DispatcherState → Option Pool
unfolding after_wait
on_timer p waiting = some (record p { dispatcher = after_wait false })
on_timer p dequeuing = none
on_timer p closed = none
on_timer p (sending id) = none

on_dispatcher_done : Pool → DispatcherState → Option Pool
unfolding after_wait
on_dispatcher_done p waiting =
    if p.cancelled then some (record p { dispatcher = after_wait true }) else none
on_dispatcher_done p (sending id) =
    if p.cancelled then some (record p { dispatcher = closed; dropped = id ∷ p.dropped }) else none
on_dispatcher_done p dequeuing = none
on_dispatcher_done p closed = none

pub on_hand_over : Pool → DispatcherState → ℕ → Option Pool
unfolding after_select
on_hand_over p (sending id) i =
    if is_receiving (get_elem? p.workers i)
    then some (record p {
      dispatcher = dequeuing;
      workers = set p.workers i (after_select (some id));
      handed = id ∷ p.handed;
    })
    else none
on_hand_over p dequeuing i = none
on_hand_over p waiting i = none
on_hand_over p closed i = none

abbrev pub is_closed : DispatcherState → Bool
is_closed closed = true
is_closed dequeuing = false
is_closed waiting = false
is_closed (sending id) = false

pub stop_worker : Pool → Bool → ℕ → Option Pool
unfolding after_select
stop_worker p test i =
    if test && is_receiving (get_elem? p.workers i)
    then some (record p { workers = set p.workers i (after_select none) })
    else none

on_finish : Pool → Option Text → ℕ → Result (Unit {0}) → Option Pool
on_finish p none i r = none
on_finish p (some id) i r = some (record p {
  workers = set p.workers i (after_execute p.cancelled r);
  finished = id ∷ p.finished;
})

-- One event of Run; `none` if it cannot happen in this state.
unfoldable pub step : Pool → Event → Option Pool
unfolding on_dequeue on_timer on_dispatcher_done on_hand_over stop_worker on_finish
step p cancel = some (record p { cancelled = true })
step p (dequeue r) = on_dequeue p p.dispatcher r
step p timer = on_timer p p.dispatcher
step p dispatcher_done = on_dispatcher_done p p.dispatcher
step p (hand_over i) = on_hand_over p p.dispatcher i
step p (worker_done i) = stop_worker p p.cancelled i
step p (channel_closed i) = stop_worker p (is_closed p.dispatcher) i
step p (finish i r) = on_finish p (busy (get_elem? p.workers i)) i r

-- A schedule; `none` if one of its events cannot happen.
unfoldable pub run : Pool → List Event → Option Pool
run p [] = some p
run p (e ∷ es) = elim (step p e) [ none ↦ none | some q ↦ run q es ]
