-- ===== src/Executor/Routing.antt =====
-- NewDispatcher and Execute of internal/adapters/executor/dispatcher.go together.
use async_job_poc.Base.{◌≡◌, inl, inr, true, Option, none, some, Option-cases, List, [], ◌∷◌, arith}
use async_job_poc.Text.{Text}
use async_job_poc.Errors.{ok, is_ok, Result-cases}
use async_job_poc.Job.Kind.{is_valid, type_send_email, type_report_generation, type_data_cleanup}
use async_job_poc.Job.Kind.Laws.{is_valid-cases}
use async_job_poc.Job.Entity.{Job}
use async_job_poc.Executor.Payload.{Handler}
use async_job_poc.Executor.Dispatcher.{lookup, copy_handlers, require, new_dispatcher, execute}

module _ {W : Type 0} where
  -- What is copied is what was given.
  copy_handlers-lookup :
      (key : Text) (given : List (Text × Option (Handler W))) {copied : List (Text × Handler W)}
      {h : Handler W}
      → copy_handlers given ≡ ok copied
      → lookup key copied ≡ some h
      → lookup key given ≡ some (some h)
  unfolding copy_handlers lookup
  copy_handlers-lookup key [] c l = ground arith
  copy_handlers-lookup key ((t, none) ∷ rest) c l = ground arith
  copy_handlers-lookup key ((t, some g) ∷ rest) {copied} {h} c l =
      elim (Result-cases (copy_handlers rest)) [
        | inl (tail, e) ↦
            let ih : lookup key tail ≡ some h → lookup key rest ≡ some (some h) =
              copy_handlers-lookup key rest e in
            ground arith
        | inr (x, e) ↦ ground arith
      ]

  require-lookup :
      (key : Text) (d : List (Text × Handler W))
      → require key d ≡ ok tt
      → (h : Handler W) × (lookup key d ≡ some h)
  unfolding require
  require-lookup key d e = elim (Option-cases (lookup key d)) [
    | inl p ↦ absurd (ground arith)
    | inr found ↦ found
  ]

  new_dispatcher_required :
      (given : List (Text × Option (Handler W))) {d : List (Text × Handler W)}
      → new_dispatcher given ≡ ok d
      → (require type_send_email d ≡ ok tt)
        × (require type_report_generation d ≡ ok tt)
        × (require type_data_cleanup d ≡ ok tt)
  unfolding new_dispatcher
  new_dispatcher_required given {d} e = elim (Result-cases (copy_handlers given)) [
    | inr (x, c) ↦ absurd (ground arith)
    | inl (copied, c) ↦ ground arith
  ]

  -- Every required type has a handler.
  new_dispatcher-lookup :
      (given : List (Text × Option (Handler W))) {d : List (Text × Handler W)} (key : Text)
      → new_dispatcher given ≡ ok d
      → is_valid key ≡ true
      → (h : Handler W) × (lookup key d ≡ some h)
  new_dispatcher-lookup given {d} key e v = elim (is_valid-cases key v) [
    | inl p ↦ rw p (require-lookup type_send_email d (new_dispatcher_required given e).0)
    | inr (inl p) ↦
        rw p (require-lookup type_report_generation d (new_dispatcher_required given e).1)
    | inr (inr p) ↦ rw p (require-lookup type_data_cleanup d (new_dispatcher_required given e).2)
  ]

  new_dispatcher_copied :
      (given : List (Text × Option (Handler W))) {d : List (Text × Handler W)}
      → new_dispatcher given ≡ ok d
      → copy_handlers given ≡ ok d
  unfolding new_dispatcher
  new_dispatcher_copied given e = ground arith

  execute_found :
      (d : List (Text × Handler W)) (j : Job) (w : W) (h : Handler W)
      → lookup j.job_type d ≡ some h
      → ((execute d (some j) w).1 ≡ (h (some j) w).1)
        × (is_ok (execute d (some j) w).0 ≡ is_ok (h (some j) w).0)
  unfolding execute
  execute_found d j w h e = ground arith

  -- If NewDispatcher accepts a map of handlers, Execute on a job of a valid type runs the handler
  -- that the map gives for this type, on this job: it leaves the world as the handler leaves it, and
  -- it fails exactly if the handler does.
  pub dispatcher_routes :
      (given : List (Text × Option (Handler W))) {d : List (Text × Handler W)} (j : Job) (w : W)
      → new_dispatcher given ≡ ok d
      → is_valid j.job_type ≡ true
      → (h : Handler W) × (lookup j.job_type given ≡ some (some h))
        × ((execute d (some j) w).1 ≡ (h (some j) w).1)
        × (is_ok (execute d (some j) w).0 ≡ is_ok (h (some j) w).0)
  dispatcher_routes given {d} j w e v =
      let (h, found) = new_dispatcher-lookup given j.job_type e v in
      let (same, fails) = execute_found d j w h found in
      (h, copy_handlers-lookup j.job_type given (new_dispatcher_copied given e) found, same, fails)
