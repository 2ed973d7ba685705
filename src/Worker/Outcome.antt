-- ===== src/Worker/Outcome.antt =====
-- internal/adapters/worker: what Run of the pool returns, from what Run of the dispatcher and of the
-- workers return. Once the channel is there, every return of their loops is nil.
use async_job_poc.Base.{◌≡◌, refl, Bool, true, some, none, List, [], ◌∷◌, ◌++◌, map, replicate}
use async_job_poc.Text.{bytes}
use async_job_poc.Errors.{Error, text, wrap, foreign, Result, ok, err, ensure}
use async_job_poc.Config.{join_all}
use async_job_poc.Worker.{worker_count}

-- Dispatcher.Run, with whether the channel is there, when its loop has ended.
unfoldable pub dispatcher_result : (has_jobs : Bool) → Result (Unit {0})
dispatcher_result has_jobs = ensure has_jobs (foreign (bytes "jobs channel must not be nil"))

-- ProcessorWorker.Run, likewise.
unfoldable pub worker_result : (has_jobs : Bool) → Result (Unit {0})
worker_result has_jobs = ensure has_jobs (foreign (bytes "jobs channel must not be nil"))

-- What the goroutines of the workers send to workerErrors, for their results in the order in which
-- they return.
unfoldable pub worker_errors : List (Result (Unit {0})) → List Error
worker_errors [] = []
worker_errors (ok _ ∷ results) = worker_errors results
worker_errors (err e ∷ results) = e ∷ worker_errors results

abbrev dispatcher_error : Result (Unit {0}) → List Error
dispatcher_error (ok _) = []
dispatcher_error (err e) = wrap (text (bytes "run queue dispatcher: ") ∷ []) e [] ∷ []

-- runErrors
unfoldable pub run_errors : Result (Unit {0}) → List Error → List Error
run_errors dispatched errors =
    dispatcher_error dispatched
    ++ map (λ e. wrap (text (bytes "run processing worker: ") ∷ []) e []) errors

-- The end of Pool.Run, for the result of the dispatcher and those of the workers.
unfoldable pub pool_result : Result (Unit {0}) → List (Result (Unit {0})) → Result (Unit {0})
unfolding worker_errors run_errors
pool_result dispatched results = elim (join_all (run_errors dispatched (worker_errors results))) [
  | none ↦ ok tt
  | some e ↦ err e
]

-- Pool.Run returns nil, since the channel that it makes is there.
run_result :
    pool_result (dispatcher_result true) (replicate worker_count (worker_result true)) ≡ ok tt
unfolding pool_result dispatcher_result worker_result
run_result = refl
