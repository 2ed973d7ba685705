-- ===== src/Http/Health/Readiness.antt =====
-- When Ready answers 200.
use async_job_poc.Base.{◌≡◌, ◌≢◌, refl, ◌⊎◌, inl, inr, Option, none, some, List, [], ◌∷◌}
use async_job_poc.Text.{bytes}
use async_job_poc.Errors.{ok, Result-cases}
use async_job_poc.UseCase.Action.{Action}
use async_job_poc.Http.Response.{Writer, status}
use async_job_poc.Http.Refusals.{IsUnanswered, Answers, write_json-Answers}
use async_job_poc.Http.Health.{check_all, ready, write_not_ready}

abbrev pub IsReady : Writer → Type 0
IsReady writer = Answers writer 200 (status (bytes "ready"))

abbrev pub IsNotReady : Writer → Type 0
IsNotReady writer = Answers writer 503 (status (bytes "not_ready"))

not_ready : (writer : Writer) → IsUnanswered writer → IsNotReady (write_not_ready writer)
unfolding write_not_ready
not_ready writer u = write_json-Answers 503 (status (bytes "not_ready")) writer u

module _ {W : Type 0} where
  -- Every checker is there, and one after the other their pings succeed.
  abbrev pub AreUp : List (Option (Action W (Unit {0}))) → W → Type 0
  AreUp [] w = Unit
  AreUp (none ∷ checkers) w = ⊥
  AreUp (some ping ∷ checkers) w = ((ping w).0 ≡ ok tt) × AreUp checkers (ping w).1

  checked :
      (checkers : List (Option (Action W (Unit {0})))) (writer : Writer) (w : W)
      → IsUnanswered writer
      → (AreUp checkers w × IsReady (check_all checkers writer w).0)
        ⊎ (¬ AreUp checkers w × IsNotReady (check_all checkers writer w).0)
  unfolding check_all
  checked [] writer w u = inl (tt, write_json-Answers 200 (status (bytes "ready")) writer u)
  checked (none ∷ checkers) writer w u = inr (λ up. up, not_ready writer u)
  checked (some ping ∷ checkers) writer w u = elim (Result-cases (ping w).0) [
    | inr (e, h) ↦ inr (λ up. cc, rw (h, check_all) (not_ready writer u))
    | inl (x, h) ↦ elim (checked checkers writer (ping w).1 u) [
      | inl (up, answer) ↦ inl ((h, up), rw (h, check_all) answer)
      | inr (down, answer) ↦ inr (λ up. down up.1, rw (h, check_all) answer)
    ]
  ]

  -- On a response to which nothing is written, Ready answers 200 if there is a checker, every
  -- checker is there, and one after the other their pings succeed; otherwise it answers 503.
  pub ready_cases :
      (checkers : List (Option (Action W (Unit {0})))) (writer : Writer) (w : W)
      → IsUnanswered writer
      → ((checkers ≢ []) × AreUp checkers w × IsReady (ready checkers writer w).0)
        ⊎ (((checkers ≡ []) ⊎ (¬ AreUp checkers w)) × IsNotReady (ready checkers writer w).0)
  unfolding ready
  ready_cases [] writer w u = inr (inl refl, not_ready writer u)
  ready_cases (c ∷ checkers) writer w u = elim (checked (c ∷ checkers) writer w u) [
    | inl (up, answer) ↦ inl (λ e. cc, up, answer)
    | inr (down, answer) ↦ inr (inr down, answer)
  ]
