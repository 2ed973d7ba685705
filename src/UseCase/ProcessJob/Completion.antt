-- ===== src/UseCase/ProcessJob/Completion.antt =====
-- When ProcessJob.Execute returns no error.
use async_job_poc.Base.{
  ℕ, ◌+◌, ◌≡◌, refl, sym, ap, ◌∙◌, inl, inr, Bool-cases, none, some, arith, true, false,
}
use async_job_poc.Text.{Text}
use async_job_poc.Time.{Time}
use async_job_poc.Errors.{Error, Verbs, Result, ok, err, is_ok, Result-cases}
use async_job_poc.Job.Id
use async_job_poc.Job.Entity.{Job}
use async_job_poc.Job.Status.{status_pending, status_success}
use async_job_poc.Job.Lifecycle.{
  FailureOutcome, retry_scheduled, terminal_failure, mark_processing, mark_success,
}
use async_job_poc.Job.Transitions.{
  mark_processing_iff, is_valid-mark_processing, is_valid-mark_success,
}
use async_job_poc.Job.History.{Reach, here, next, success, processing, Reach-trans}
use async_job_poc.UseCase.Ports.{Ports, PortLaws, Same, SameBut, overwrite}
use async_job_poc.UseCase.Ports.Frames.{SameBut-of_Same, SameBut-trans}
use async_job_poc.UseCase.ProcessJob.{
  about, publish, persist_failure, handle_execution_failure, complete, run, load_and_run,
  process_job,
}
use async_job_poc.UseCase.ProcessJob.Effects.{save-SaveEnds, SaveEnds}
use async_job_poc.UseCase.ProcessJob.Running.{
  saved_success, saved_processing, run_ok, run_err, complete-world, mark_success-id,
  mark_processing-id,
}
use async_job_poc.UseCase.ProcessJob.Safety.{after_load, load_done, process_job_valid}

module _ {W : Type 0} (verbs : Verbs) (ports : Ports W) (laws : PortLaws ports) where
  open laws use {view, round}
  open view use {stored, queued, runs}

  publish_fails :
      (j : Job) (e : Error) (settled : FailureOutcome) (w : W)
      → is_ok (publish verbs ports j e settled w).0 ≡ false
  unfolding publish
  publish_fails j e retry_scheduled w = ground arith
  publish_fails j e terminal_failure w = refl

  persist_failure_fails :
      (previous : Text) (e : Error) (r : Result FailureOutcome × Job) (w : W)
      → is_ok (persist_failure verbs ports previous e r w).0 ≡ false
  unfolding persist_failure
  persist_failure_fails previous e (err x, j) w = refl
  persist_failure_fails previous e (ok settled, j) w =
      let w' : W = (ports.status_persisted j previous (ports.repository.update j w).1).1 in
      ground (arith, publish_fails j e settled w')

  handle_fails :
      (j : Job) (e : Error) (w : W) → is_ok (handle_execution_failure verbs ports j e w).0 ≡ false
  unfolding handle_execution_failure
  handle_fails j e w = persist_failure_fails j.status e _ (ports.now w).1

  pub is_ok-complete :
      (id : Text) (j : Job) (w : W)
      → is_ok (complete verbs ports id j w).0 ≡ is_ok (saved_success verbs ports laws id j w).0
  unfolding complete saved_success
  is_ok-complete id j w = ground arith

  run-is_ok :
      (id : Text) (j : Job) (w : W)
      → is_ok (run verbs ports id j w).0 ≡ true
      → (run verbs ports id j w ≡ complete verbs ports id j (ports.execute j w).1)
        × (is_ok (complete verbs ports id j (ports.execute j w).1).0 ≡ true)
  run-is_ok id j w h = elim (Result-cases (ports.execute j w).0) [
    | inl (u, p) ↦ let e = run_ok verbs ports laws id j w p in (e, rw e at h)
    | inr (x, p) ↦
        let f = handle_fails j x (ports.execute j w).1 in
        let e = run_err verbs ports laws id j w p in absurd (cc)
  ]

  mark_success_status :
      (at : Time) (j : Job)
      → (mark_success at j).0 ≡ none
      → (mark_success at j).1.status ≡ status_success
  unfolding mark_success
  mark_success_status at j h = ground arith

  -- The world in which the row of `id`, that of `k`, is the one of a job that succeeded.
  record IsDone (n : ℕ) (id : Text) (k j : Job) (w w' : W) : Type 0 where
    row :
        (l : Job) × Reach j l
        × (l.status ≡ status_success)
        × (stored w' id ≡ some (overwrite round k l))
    queue : queued w' ≡ queued w
    calls : runs w' ≡ runs w + n

  IsDone-of_save :
      (id : Text) (k j : Job) (at : Time) {w w' : W} (r : Result Job)
      → is_ok r ≡ true
      → SameBut view id w w'
      → SaveEnds verbs ports laws (mark_success at j) id (overwrite round k j) (r, w')
      → IsDone 0 id k j w w'
  IsDone-of_save id k j at (err e) h s _ = cc
  IsDone-of_save id k j at (ok l) h s (p, q, row) = record {
    row = ((mark_success at j).1, next here (success at j p), mark_success_status at j p, row);
    queue = s.queued;
    calls = omega (arith, s.runs);
  }

  complete-IsDone :
      (id : Text) (k j : Job) (w : W)
      → j.id ≡ id
      → stored w id ≡ some (overwrite round k j)
      → is_ok (complete verbs ports id j w).0 ≡ true
      → IsDone 0 id k j w (complete verbs ports id j w).1
  unfolding saved_success
  complete-IsDone id k j w same at h =
      let now = laws.now_same w in
      let t : Time = (ports.now w).0 in
      let (s, e) =
        save-SaveEnds verbs ports laws (about "mark job " id " as successful: ")
          (about "persist successful status for job " id ": ") j.status (mark_success t j) id
          (overwrite round k j) (ports.now w).1 (mark_success-id verbs ports laws t j ∙ same)
          (is_valid-mark_success t j) (now.stored id ∙ at) in
      rw (complete-world verbs ports laws id j w) (
        IsDone-of_save id k j t (saved_success verbs ports laws id j w).0
          (sym (is_ok-complete id j w) ∙ h) (SameBut-trans (SameBut-of_Same id now) s) e)

  run-IsDone :
      (id : Text) (k j : Job) (w : W)
      → j.id ≡ id
      → stored w id ≡ some (overwrite round k j)
      → is_ok (run verbs ports id j w).0 ≡ true
      → IsDone 1 id k j w (run verbs ports id j w).1
  run-IsDone id k j w same at h =
      let (e, c) = run-is_ok id j w h in
      let d =
        complete-IsDone id k j (ports.execute j w).1 same (laws.execute_stored j w id ∙ at) c in
      rw e (record {
        row = d.row;
        queue = d.queue ∙ laws.execute_queued j w;
        calls = omega (arith, d.calls, laws.execute_runs j w);
      })

  -- From `w` to `w'` the pending job `id` was run once, with success: its row is that of a legal
  -- history to `success`, and the queue is as before.
  pub record IsCompleted (id : Text) (w w' : W) : Type 0 where
    pub valid : Id.is_valid id ≡ true
    pub row :
        (k l : Job) × (stored w id ≡ some k)
        × (k.status ≡ status_pending)
        × Reach k l
        × (l.status ≡ status_success)
        × (stored w' id ≡ some (overwrite round k l))
    pub queue : queued w' ≡ queued w
    pub calls : runs w' ≡ runs w + 1

  after_load-IsCompleted :
      (id : Text) (k : Job) (at : Time) {w : W} (r : Result Job) (w' : W)
      → Id.is_valid id ≡ true
      → stored w id ≡ some k
      → k.id ≡ id
      → SameBut view id w w'
      → SaveEnds verbs ports laws (mark_processing at k) id k (r, w')
      → is_ok (after_load verbs ports laws id (r, w')).0 ≡ true
      → IsCompleted id w (after_load verbs ports laws id (r, w')).1
  unfolding after_load
  after_load-IsCompleted id k at (err e) w' v stored_k same s _ h = cc
  after_load-IsCompleted id k at (ok j) w' v stored_k same s (p, q, row) h =
      let j-id = ap (λ (x : Job). x.id) q ∙ mark_processing-id verbs ports laws at k ∙ same in
      let d = run-IsDone id k j w' j-id (row ∙ ap (λ x. some (overwrite round k x)) (sym q)) h in
      let (l, r, done, row') = d.row in
      record {
        valid = v;
        row = (
          k,
          l,
          stored_k,
          ((mark_processing_iff at k).0 p).0,
          Reach-trans (next here (processing at k p)) (rw q at r),
          done,
          row',
        );
        queue = d.queue ∙ s.queued;
        calls = omega (arith, d.calls, s.runs);
      }

  loaded-IsCompleted :
      (id : Text) (k : Job) (w w' : W)
      → Same view w w'
      → Id.is_valid id ≡ true
      → stored w id ≡ some k
      → k.id ≡ id
      → is_ok (after_load verbs ports laws id (saved_processing verbs ports laws id k w')).0 ≡ true
      → IsCompleted id w
          (after_load verbs ports laws id (saved_processing verbs ports laws id k w')).1
  unfolding saved_processing
  loaded-IsCompleted id k w w' same v at same_id h =
      let now = laws.now_same w' in
      let t : Time = (ports.now w').0 in
      let at' = now.stored id ∙ same.stored id ∙ at in
      let (s, e) =
        save-SaveEnds verbs ports laws (about "mark job " id " as processing: ")
          (about "persist processing status for job " id ": ") k.status (mark_processing t k) id k
          (ports.now w').1 (mark_processing-id verbs ports laws t k ∙ same_id)
          (is_valid-mark_processing t k) at' in
      after_load-IsCompleted id k t (saved_processing verbs ports laws id k w').0
        (saved_processing verbs ports laws id k w').1 v at same_id
        (SameBut-trans (SameBut-of_Same id same) (SameBut-trans (SameBut-of_Same id now) s)) e h

  load_refused_fails :
      (id : Text) (w : W) {e : Error}
      → (ports.repository.get_by_id id w).0 ≡ err e
      → is_ok (load_and_run verbs ports id w).0 ≡ false
  unfolding load_and_run
  load_refused_fails id w h = ground arith

  invalid_fails :
      (id : Text) (w : W) → Id.is_valid id ≡ false → is_ok (process_job verbs ports id w).0 ≡ false
  unfolding process_job
  invalid_fails id w h = ground arith

  -- If Execute returns no error, the ID is valid, its row was that of a pending job, the executor ran
  -- once, the row is now that of a legal continuation of that job to `success`, and the queue is as it
  -- was.
  pub process_job-ok :
      (id : Text) (w : W) {u : Unit {0}}
      → (process_job verbs ports id w).0 ≡ ok u
      → IsCompleted id w (process_job verbs ports id w).1
  process_job-ok id w h = elim (Bool-cases (Id.is_valid id)) [
    | inr v ↦ let f = invalid_fails id w v in absurd (cc)
    | inl v ↦
        let valid = process_job_valid verbs ports laws id w v in
        elim (Result-cases (ports.repository.get_by_id id w).0) [
          | inr (e, p) ↦ let f = load_refused_fails id w p in absurd (cc)
          | inl (k, p) ↦
              let (at, same_id) = laws.get_by_id_ok id w p in
              let e = valid ∙ load_done verbs ports laws id k w p in
              rw e (
                loaded-IsCompleted id k w (ports.repository.get_by_id id w).1
                  (laws.get_by_id_same id w) v at same_id (ap is_ok (rw e at h)))
        ]
  ]
