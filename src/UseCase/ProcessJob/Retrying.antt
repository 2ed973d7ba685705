-- ===== src/UseCase/ProcessJob/Retrying.antt =====
-- What ProcessJob.Execute does with a failure of the executor when the ports work.
use async_job_poc.Base.{◌≤◌, ◌≡◌, refl, ap, ◌∙◌, none, some, ◌∷◌, arith, true, ltb_ℤ, inc}
use async_job_poc.Text.{Text, trim_space}
use async_job_poc.Time.{Time, utc}
use async_job_poc.Errors.{Error, Verbs, ok, err, message, FailsAs, is, job_retry_scheduled}
use async_job_poc.Job.Entity.{Job}
use async_job_poc.Job.Status.Laws.{valid_pending}
use async_job_poc.Job.Status
use async_job_poc.Job.Status.{status_pending, status_failed}
use async_job_poc.Job.Lifecycle.{FailureOutcome, retry_scheduled, record_failure}
use async_job_poc.Job.Transitions.{IsTimely, IsReason, record_failure_retry}
use async_job_poc.UseCase.Ports.{Ports, PortLaws, overwrite}
use async_job_poc.UseCase.ProcessJob.{
  publish, persist_failure, handle_execution_failure, process_job,
}
use async_job_poc.UseCase.ProcessJob.Effects.{observed, observed-SameBut, observed-row}
use async_job_poc.UseCase.ProcessJob.Running.{run_err}
use async_job_poc.UseCase.ProcessJob.Liveness.{IsHealthy, IsReady, process_job-IsStarted}

module _ {W : Type 0} (verbs : Verbs) (ports : Ports W) (laws : PortLaws ports)
    (healthy : IsHealthy ports laws) where
  open laws use {view, round}
  open view use {stored, queued}
  open healthy use {reading}

  publish_retry :
      (j : Job) (e : Error) (w : W)
      → (ports.enqueue j.id w).0 ≡ ok tt
      → FailsAs job_retry_scheduled (publish verbs ports j e retry_scheduled w).0
        × ((publish verbs ports j e retry_scheduled w).1 ≡ (ports.enqueue j.id w).1)
  unfolding publish is
  publish_retry j e w h = (ground arith, ground arith)

  persist_failure_ok :
      (previous : Text) (l : Job) (e : Error) (settled : FailureOutcome) (w : W)
      → (ports.repository.update l w).0 ≡ ok tt
      → persist_failure verbs ports previous e (ok settled, l) w
        ≡ publish verbs ports l e settled (observed verbs ports laws l previous w)
  unfolding persist_failure observed
  persist_failure_ok previous l e settled w h = ground arith

  -- The world in which the failure of `j`, now `l`, is stored in the row of `id`.
  record IsRecorded (id : Text) (r j l : Job) (settled : FailureOutcome) (e : Error) (w w' : W)
      : Type 0 where
    publishes : handle_execution_failure verbs ports j e w ≡ publish verbs ports l e settled w'
    row : stored w' id ≡ some (overwrite round r l)
    queue : queued w' ≡ queued w

  recorded :
      (id : Text) (r j l : Job) (settled : FailureOutcome) (e : Error) (w : W)
      → l.id ≡ id
      → Status.is_valid l.status ≡ true
      → stored w id ≡ some r
      → record_failure (ports.now w).0 (message verbs e) j ≡ (ok settled, l)
      → IsRecorded id r j l settled e w (observed verbs ports laws l j.status (ports.now w).1)
  unfolding handle_execution_failure
  recorded id r j l settled e w same v at h =
      let now = laws.now_same w in
      let row = now.stored id ∙ at in
      let updated =
        healthy.update_ok l r (ports.now w).1 (ap (stored (ports.now w).1) same ∙ row) in
      record {
        publishes = rw h (persist_failure_ok j.status l e settled (ports.now w).1 updated);
        row = observed-row verbs ports laws id r l j.status (ports.now w).1 same v row updated;
        queue =
            (observed-SameBut verbs ports laws id l j.status (ports.now w).1 same).queued
            ∙ now.queued;
      }

  timely : (j : Job) (w : W) → j.updated_at.instant ≤ reading w → IsTimely j (ports.now w).0
  timely j w past = (healthy.now_not_zero w, omega (arith, healthy.now_from w))

  abbrev again : Text → Time → Job → Job
  again reason t j = record j {
    status = status_pending;
    retry_count = inc j.retry_count;
    last_error = some reason;
    updated_at = utc t;
    completed_at = none;
  }

  -- What a failed attempt with retries left leaves: the row of `k` is pending, with one more retry
  -- used and the error of the executor, and its ID is queued.
  pub record IsRetried (id : Text) (k : Job) (e : Error) (w w' : W) : Type 0 where
    pub row :
        (r : Job) × (stored w' id ≡ some r)
        × (r.status ≡ status_pending)
        × (r.retry_count ≡ inc k.retry_count)
        × (r.last_error ≡ some (trim_space (message verbs e)))
    pub queue : queued w' ≡ id ∷ queued w

  -- If the executor fails on a pending job that has retries left, with an error whose message is
  -- not blank, and the repository, the queue and the clock work, Execute reports that a retry is
  -- scheduled, and the row is pending with one more retry used and that message, and the ID queued.
  pub process_job-retries :
      (id : Text) (k : Job) (e : Error) (w : W)
      → IsReady verbs ports laws healthy id k w
      → IsReason (message verbs e)
      → ltb_ℤ k.retry_count k.max_retries ≡ true
      → ((j : Job) (w' : W) → j.id ≡ id → (ports.execute j w').0 ≡ err e)
      → FailsAs job_retry_scheduled (process_job verbs ports id w).0
        × IsRetried id k e w (process_job verbs ports id w).1
  process_job-retries id k e w ready reason left fails =
      let (j, w1, s) = process_job-IsStarted verbs ports laws healthy id k w ready in
      let w2 : W = (ports.execute j w1).1 in
      let t : Time = (ports.now w2).0 in
      let past : j.updated_at.instant ≤ reading w2 =
        omega (arith, s.past, healthy.execute_reading j w1) in
      let more : ltb_ℤ j.retry_count j.max_retries ≡ true =
        rw (s.retry_count, s.max_retries) left in
      let l : Job = again (trim_space (message verbs e)) t j in
      let at = laws.execute_stored j w1 id ∙ s.row in
      let d =
        recorded id (overwrite round k j) j l retry_scheduled e w2 s.same valid_pending at (
          record_failure_retry t (message verbs e) j s.processing reason (timely j w2 past) more) in
      let w3 : W = observed verbs ports laws l j.status (ports.now w2).1 in
      let sent : (ports.enqueue l.id w3).0 ≡ ok tt =
        healthy.enqueue_ok l.id w3 (rw s.same ready.valid) in
      let (scheduled, world) = publish_retry l e w3 sent in
      let all = s.runs_next ∙ run_err verbs ports laws id j w1 (fails j w1 s.same) ∙ d.publishes in
      rw (all, world)
        (
          scheduled,
          record {
            row = (
              overwrite round (overwrite round k j) l,
              laws.enqueue_stored l.id w3 id ∙ d.row,
              refl,
              ap inc s.retry_count,
              refl,
            );
            queue =
                laws.enqueue_ok l.id w3 sent
                ∙ (λ i. s.same i ∷ (d.queue ∙ laws.execute_queued j w1 ∙ s.queue) i);
          },
        )

  -- What a failed last attempt leaves: the row of `k` is failed, with no retry more and the error of
  -- the executor, and the queue is as it was.
  pub record IsGivenUp (id : Text) (k : Job) (e : Error) (w w' : W) : Type 0 where
    pub row :
        (r : Job) × (stored w' id ≡ some r)
        × (r.status ≡ status_failed)
        × (r.retry_count ≡ k.retry_count)
        × (r.last_error ≡ some (trim_space (message verbs e)))
    pub queue : queued w' ≡ queued w
