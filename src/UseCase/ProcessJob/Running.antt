-- ===== src/UseCase/ProcessJob/Running.antt =====
-- What ProcessJob.Execute can do to the world from the call of the executor on.
use async_job_poc.Base.{◌≡◌, ap, ◌∙◌, inl, inr, Option, none, some, ◌∷◌, arith}
use async_job_poc.Text.{Text}
use async_job_poc.Time.{Time}
use async_job_poc.Errors.{Error, Verbs, Result, ok, err, Result-cases}
use async_job_poc.Job.Entity.{Job}
use async_job_poc.Job.Lifecycle.{mark_processing, mark_success}
use async_job_poc.Job.Transitions.{is_valid-mark_success}
use async_job_poc.Job.History.{Reach, here, next, success}
use async_job_poc.UseCase.Ports.{Ports, PortLaws, SameBut, overwrite}
use async_job_poc.UseCase.ProcessJob.{about, handle_execution_failure, save, complete, run}
use async_job_poc.UseCase.ProcessJob.Effects.{save-SaveEnds, SaveEnds}
use async_job_poc.UseCase.ProcessJob.Failures.{Ends, Ends-stop, Same-Ends, handle-Ends}

module _ {W : Type 0} (verbs : Verbs) (ports : Ports W) (laws : PortLaws ports) where
  open laws use {view, round}
  open view use {stored, queued, runs}

  -- The two calls of `save`, after the clock is read.
  unfoldable pub saved_success : Text → Job → W → Result Job × W
  saved_success id j w =
      save verbs ports (about "mark job " id " as successful: ")
        (about "persist successful status for job " id ": ") j.status
        (mark_success (ports.now w).0 j) (ports.now w).1

  unfoldable pub saved_processing : Text → Job → W → Result Job × W
  saved_processing id k w =
      save verbs ports (about "mark job " id " as processing: ")
        (about "persist processing status for job " id ": ") k.status
        (mark_processing (ports.now w).0 k) (ports.now w).1

  pub complete-world :
      (id : Text) (j : Job) (w : W) → (complete verbs ports id j w).1 ≡ (saved_success id j w).1
  unfolding complete saved_success
  complete-world id j w = ground arith

  pub success-Reach :
      (at : Time) (j : Job) → (mark_success at j).0 ≡ none → Reach j (mark_success at j).1
  success-Reach at j h = next here (success at j h)

  pub mark_success-id : (at : Time) (j : Job) → (mark_success at j).1.id ≡ j.id
  unfolding mark_success
  mark_success-id at j = ground arith

  pub mark_processing-id : (at : Time) (j : Job) → (mark_processing at j).1.id ≡ j.id
  unfolding mark_processing
  mark_processing-id at j = ground arith

  save_to-Ends :
      (id : Text) (k j : Job) (m : Option Error × Job) {w w' : W} (r : Result Job)
      → SameBut view id w w'
      → (m.0 ≡ none → Reach j m.1)
      → SaveEnds verbs ports laws m id (overwrite round k j) (r, w')
      → Ends verbs ports laws 0 id k j w w'
  save_to-Ends id k j m (ok l) s reach (p, q, at) = Ends-stop verbs ports laws m.1 s (reach p) at
  save_to-Ends id k j m (err e) s reach (inl at) = Ends-stop verbs ports laws j s here at
  save_to-Ends id k j m (err e) s reach (inr (p, at)) =
      Ends-stop verbs ports laws m.1 s (reach p) at

  complete-Ends :
      (id : Text) (k j : Job) (w : W)
      → j.id ≡ id
      → stored w id ≡ some (overwrite round k j)
      → Ends verbs ports laws 0 id k j w (complete verbs ports id j w).1
  unfolding saved_success
  complete-Ends id k j w same at =
      let now = laws.now_same w in
      let t : Time = (ports.now w).0 in
      let (s, e) =
        save-SaveEnds verbs ports laws (about "mark job " id " as successful: ")
          (about "persist successful status for job " id ": ") j.status (mark_success t j) id
          (overwrite round k j) (ports.now w).1 (mark_success-id t j ∙ same)
          (is_valid-mark_success t j) (now.stored id ∙ at) in
      rw (complete-world id j w) (
        Same-Ends verbs ports laws id k j now
          (save_to-Ends id k j (mark_success t j) (saved_success id j w).0 s (success-Reach t j) e))

  pub run_ok :
      (id : Text) (j : Job) (w : W) {u : Unit {0}}
      → (ports.execute j w).0 ≡ ok u
      → run verbs ports id j w ≡ complete verbs ports id j (ports.execute j w).1
  unfolding run
  run_ok id j w h = rw h

  pub run_err :
      (id : Text) (j : Job) (w : W) {e : Error}
      → (ports.execute j w).0 ≡ err e
      → run verbs ports id j w ≡ handle_execution_failure verbs ports j e (ports.execute j w).1
  unfolding run
  run_err id j w h = rw h

  -- The executor's call adds one to the number of calls and nothing else.
  executed-Ends :
      (id : Text) (k j : Job) {w w' : W}
      → Ends verbs ports laws 0 id k j (ports.execute j w).1 w'
      → Ends verbs ports laws 1 id k j w w'
  executed-Ends id k j {w} e = record {
    other = λ o h. e.other o h ∙ laws.execute_stored j w o;
    row = e.row;
    queue = elim e.queue [
      | inl q ↦ inl (q ∙ laws.execute_queued j w)
      | inr (q, p) ↦ inr (q ∙ ap (◌∷◌ id) (laws.execute_queued j w), p)
    ];
    calls = omega (arith, e.calls, laws.execute_runs j w);
  }

  pub run-Ends :
      (id : Text) (k j : Job) (w : W)
      → j.id ≡ id
      → stored w id ≡ some (overwrite round k j)
      → Ends verbs ports laws 1 id k j w (run verbs ports id j w).1
  run-Ends id k j w same at =
      let at' = laws.execute_stored j w id ∙ at in
      elim (Result-cases (ports.execute j w).0) [
        | inl (u, h) ↦
            rw (run_ok id j w h)
              (executed-Ends id k j (complete-Ends id k j (ports.execute j w).1 same at'))
        | inr (e, h) ↦ rw (run_err id j w h) (
            executed-Ends id k j
              (handle-Ends verbs ports laws id k j e (ports.execute j w).1 same at'))
      ]
