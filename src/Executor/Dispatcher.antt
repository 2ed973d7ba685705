-- ===== src/Executor/Dispatcher.antt =====
-- internal/adapters/executor/dispatcher.go. A Go map is an association list with distinct keys, in
-- the order in which `range` visits it.
use async_job_poc.Base.{Option, none, some, List, [], ◌∷◌, if◌then◌else◌}
use async_job_poc.Text.{Text, bytes, text_eq}
use async_job_poc.Errors.{
  Error, sentinel, foreign, wrap, text, handler_not_registered, Result, ok, err, ◌>>=◌, ◌>>◌,
  ensure,
}
use async_job_poc.Job.Kind.{
  is_valid, type_error, type_send_email, type_report_generation, type_data_cleanup,
}
use async_job_poc.Job.Entity.{Job}
use async_job_poc.UseCase.Action.{Action, fail, or_fail, prefix}
use async_job_poc.Executor.Payload.{Handler}

unfoldable pub lookup : {A : Type 0} → Text → List (Text × A) → Option A
lookup key [] = none
lookup key ((k, a) ∷ rest) = if text_eq k key then some a else lookup key rest

abbrev not_registered : Text → Error
not_registered job_type =
    wrap [] (sentinel handler_not_registered) (text (bytes ": ") ∷ text job_type ∷ [])

module _ {W : Type 0} where
  present : Text → Option (Handler W) → Result (Handler W)
  present job_type none = err (
      wrap [] (sentinel handler_not_registered)
        (text (bytes ": nil handler for ") ∷ text job_type ∷ []))
  present job_type (some handler) = ok handler

  -- The loop that checks and copies the map.
  unfoldable pub copy_handlers : List (Text × Option (Handler W)) → Result (List (Text × Handler W))
  unfolding present
  copy_handlers [] = ok []
  copy_handlers ((job_type, handler) ∷ rest) = do
    ensure (is_valid job_type) (type_error job_type)
    h ← present job_type handler
    copied ← copy_handlers rest
    ok ((job_type, h) ∷ copied)

  -- The check of one required type.
  unfoldable pub require : Text → List (Text × Handler W) → Result (Unit {0})
  require job_type handlers = elim (lookup job_type handlers) [
    | none ↦ err (not_registered job_type)
    | some h ↦ ok tt
  ]

  -- NewDispatcher
  unfoldable pub new_dispatcher :
      List (Text × Option (Handler W)) → Result (List (Text × Handler W))
  unfolding require
  new_dispatcher handlers = do
    copied ← copy_handlers handlers
    require type_send_email copied
    require type_report_generation copied
    require type_data_cleanup copied
    ok copied

  -- Dispatcher.Execute
  unfoldable pub execute : List (Text × Handler W) → Option Job → Action W (Unit {0})
  execute handlers none = fail (foreign (bytes "job must not be nil"))
  execute handlers (some entity) = elim (lookup entity.job_type handlers) [
    | none ↦ fail (not_registered entity.job_type)
    | some handle ↦
        or_fail
          (prefix (
            text (bytes "handle ")
            ∷ text entity.job_type
            ∷ text (bytes " job ")
            ∷ text entity.id
            ∷ text (bytes ": ")
            ∷ []))
          (handle (some entity))
  ]
