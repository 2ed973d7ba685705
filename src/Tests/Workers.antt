-- ===== src/Tests/Workers.antt =====
-- The pool of workers on schedules.
use async_job_poc.Base.{
  ◌+◌, ◌*◌, ◌≤◌, ◌≡◌, refl, ◌⊎◌, true, List, [], ◌∷◌, some, length, set, replicate,
}
use async_job_poc.Text.{Text, bytes}
use async_job_poc.Errors.{is, ok, err, sentinel, canceled, foreign}
use async_job_poc.Worker.Dispatcher.{closed, sending, after_dequeue, dispatcher_context_finished}
use async_job_poc.Worker.Processor.{receiving, stopped, processing, after_execute}
use async_job_poc.Worker.Delivery.{
  IsAccounted, IsReturned, count, run-start-IsAccounted, returned_delivers,
}
use async_job_poc.Worker.Work.{own, fetches}
use async_job_poc.Worker.Shutdown.{CanStep, sum_of, shutdown}
use async_job_poc.Worker.{
  Pool, Event, cancel, dequeue, timer, hand_over, dispatcher_done, worker_done, channel_closed,
  finish, start, step, run,
}

abbrev a : Text
a = bytes "a"

abbrev b : Text
b = bytes "b"

-- One ID is executed by the third worker; the other is held when the context is cancelled, after a
-- failure of Dequeue.
abbrev before : List Event
before =
    dequeue (ok a)
    ∷ hand_over 2
    ∷ dequeue (err (foreign (bytes "connection refused")))
    ∷ timer
    ∷ dequeue (ok b)
    ∷ cancel
    ∷ []

abbrev held : Pool
held = record {
  cancelled = true;
  dispatcher = sending b;
  workers = set (replicate 5 receiving) 2 (processing a);
  taken = b ∷ a ∷ [];
  handed = a ∷ [];
  finished = [];
  dropped = [];
}

before-held : run start before ≡ some held
unfolding run start step after_dequeue dispatcher_context_finished is
before-held = refl

run-start-IsAccounted_example : IsAccounted held
run-start-IsAccounted_example = run-start-IsAccounted before before-held

-- The dispatcher drops what it holds and closes the channel; the workers stop.
abbrev ending : List Event
ending =
    dispatcher_done
    ∷ worker_done 0
    ∷ channel_closed 1
    ∷ finish 2 (err (sentinel canceled))
    ∷ worker_done 3
    ∷ channel_closed 4
    ∷ []

abbrev ended : Pool
ended = record {
  cancelled = true;
  dispatcher = closed;
  workers = replicate 5 stopped;
  taken = b ∷ a ∷ [];
  handed = a ∷ [];
  finished = a ∷ [];
  dropped = b ∷ [];
}

abbrev whole : List Event
whole =
    dequeue (ok a)
    ∷ hand_over 2
    ∷ dequeue (err (foreign (bytes "connection refused")))
    ∷ timer
    ∷ dequeue (ok b)
    ∷ cancel
    ∷ ending

whole-ended : run start whole ≡ some ended
unfolding run start step after_dequeue dispatcher_context_finished is after_execute
whole-ended = refl

ended-IsReturned : IsReturned ended
ended-IsReturned = record {
  dispatcher = refl;
  workers = (refl, (refl, (refl, (refl, (refl, tt)))));
}

returned_delivers_example :
    (length ended.dropped ≤ 1)
    × ((id : Text) → count id ended.taken ≡ count id ended.finished + count id ended.dropped)
returned_delivers_example = returned_delivers whole whole-ended ended-IsReturned

held-ended : run held ending ≡ some ended
unfolding run step after_execute
held-ended = refl

shutdown_example :
    (sum_of own ending ≤ 13 + 3 * sum_of fetches ending) × (IsReturned ended ⊎ CanStep ended)
shutdown_example = shutdown before ending before-held refl held-ended
