-- ===== src/UseCase/Observer.antt =====
-- internal/application/usecase/lifecycle_observer.go: which observer a constructor uses. An
-- observer is none (a nil interface) or some value.
use async_job_poc.Base.{Option, none, some, List, [], ◌∷◌}
use async_job_poc.Text.{Text, bytes}
use async_job_poc.Errors.{foreign, Result, ok, err}
use async_job_poc.Job.Entity.{Job}

abbrev pub Observer : Type 0 → Type 0
Observer W = Job → Text → W → Unit {0} × W

-- noopJobLifecycleObserver
pub noop_observer : {W : Type 0} → Observer W
noop_observer entity previous w = (tt, w)

-- resolveLifecycleObserver
unfoldable pub resolve_lifecycle_observer :
    {W : Type 0} → List (Option (Observer W)) → Result (Observer W)
unfolding noop_observer
resolve_lifecycle_observer [] = ok noop_observer
resolve_lifecycle_observer (none ∷ []) = err (foreign (bytes "lifecycle observer must not be nil"))
resolve_lifecycle_observer (some observer ∷ []) = ok observer
resolve_lifecycle_observer (_ ∷ _ ∷ _) =
    err (foreign (bytes "only one lifecycle observer may be provided"))
