-- ===== src/UseCase/ProcessJob/Liveness.antt =====
-- What ProcessJob.Execute achieves when the repository, the queue and the clock work.
use async_job_poc.Base.{ℕ, ◌≤◌, ◌≡◌, ◌≢◌, refl, ap, ◌∙◌, none, some, arith, true}
use async_job_poc.Text.{Text}
use async_job_poc.Time.{Time, zero_instant, utc}
use async_job_poc.Errors.{Verbs, ok}
use async_job_poc.Job.Id
use async_job_poc.Job.Entity.{Job}
use async_job_poc.Job.Status.Laws.{valid_processing}
use async_job_poc.Job.Status.{status_pending, status_processing}
use async_job_poc.Job.Transitions.{IsTimely, mark_processing_lem}
use async_job_poc.UseCase.Ports.{Ports, PortLaws, overwrite}
use async_job_poc.UseCase.ProcessJob.{about, run, process_job}
use async_job_poc.UseCase.ProcessJob.Effects.{save_done, observed, observed-SameBut, observed-row}
use async_job_poc.UseCase.ProcessJob.Running.{saved_processing}
use async_job_poc.UseCase.ProcessJob.Safety.{after_load, load_done, process_job_valid}

-- The calls that the use case makes do not fail where they need not, and the clock does not run
-- backwards: `reading` is a time that no later reading precedes.
pub record IsHealthy {W : Type 0} (ports : Ports W) (laws : PortLaws ports) : Type 0 where
  pub get_ok :
      (id : Text) (k : Job) (w : W)
      → laws.view.stored w id ≡ some k
      → k.id ≡ id
      → (ports.repository.get_by_id id w).0 ≡ ok k
  pub update_ok :
      (j k : Job) (w : W)
      → laws.view.stored w j.id ≡ some k
      → (ports.repository.update j w).0 ≡ ok tt
  pub enqueue_ok : (id : Text) (w : W) → Id.is_valid id ≡ true → (ports.enqueue id w).0 ≡ ok tt
  pub reading : W → ℕ
  pub now_from : (w : W) → reading w ≤ (ports.now w).0.instant
  pub now_to : (w : W) → (ports.now w).0.instant ≤ reading (ports.now w).1
  pub now_not_zero : (w : W) → (ports.now w).0.instant ≢ zero_instant
  pub get_reading : (id : Text) (w : W) → reading w ≤ reading (ports.repository.get_by_id id w).1
  pub update_reading : (j : Job) (w : W) → reading w ≤ reading (ports.repository.update j w).1
  pub observe_reading :
      (j : Job) (previous : Text) (w : W)
      → reading w ≤ reading (ports.status_persisted j previous w).1
  pub execute_reading : (j : Job) (w : W) → reading w ≤ reading (ports.execute j w).1

module _ {W : Type 0} (verbs : Verbs) (ports : Ports W) (laws : PortLaws ports)
    (healthy : IsHealthy ports laws) where
  open laws use {view, round}
  open view use {stored, queued, runs}
  open healthy use {reading}

  -- A pending job that can be processed: its row is `k`, last updated in the past.
  pub record IsReady (id : Text) (k : Job) (w : W) : Type 0 where
    pub valid : Id.is_valid id ≡ true
    pub row : stored w id ≡ some k
    pub same : k.id ≡ id
    pub pending : k.status ≡ status_pending
    pub past : k.updated_at.instant ≤ reading w

  abbrev started : Time → Job → Job
  started t k = record k {
    status = status_processing;
    started_at = some (utc t);
    completed_at = none;
    updated_at = utc t;
  }

  -- The world when the executor is called with `started t k`, from the one that the clock left.
  unfoldable begun : Time → Job → W → W
  begun t k w = observed verbs ports laws (started t k) k.status w

  observed_reading :
      (j : Job) (previous : Text) (w : W)
      → reading w ≤ reading (observed verbs ports laws j previous w)
  unfolding observed
  observed_reading j previous w = omega (
    arith,
    healthy.update_reading j w,
    healthy.observe_reading j previous (ports.repository.update j w).1,
  )

  saved_processing_ok :
      (id : Text) (k : Job) (w : W)
      → k.status ≡ status_pending
      → k.updated_at.instant ≤ reading w
      → stored w k.id ≡ some k
      → saved_processing verbs ports laws id k w
        ≡ (ok (started (ports.now w).0 k), begun (ports.now w).0 k (ports.now w).1)
  unfolding saved_processing begun
  saved_processing_ok id k w pending past at =
      let t : Time = (ports.now w).0 in
      let timely : IsTimely k t = (healthy.now_not_zero w, omega (arith, healthy.now_from w)) in
      let row = (laws.now_same w).stored k.id ∙ at in
      rw (mark_processing_lem t k pending timely) (
        save_done verbs ports laws (about "mark job " id " as processing: ")
          (about "persist processing status for job " id ": ") k.status (started t k)
          (ports.now w).1 (healthy.update_ok (started t k) k (ports.now w).1 row))

  -- What holds when the executor is called: the entity `j` is `k`, now processing, and it is stored.
  pub record IsStarted (id : Text) (k j : Job) (w w' : W) : Type 0 where
    pub runs_next : process_job verbs ports id w ≡ run verbs ports id j w'
    pub same : j.id ≡ id
    pub processing : j.status ≡ status_processing
    pub retry_count : j.retry_count ≡ k.retry_count
    pub max_retries : j.max_retries ≡ k.max_retries
    pub past : j.updated_at.instant ≤ reading w'
    pub row : stored w' id ≡ some (overwrite round k j)
    pub queue : queued w' ≡ queued w

  pub process_job-IsStarted :
      (id : Text) (k : Job) (w : W) → IsReady id k w → (j : Job) × (w' : W) × IsStarted id k j w w'
  unfolding after_load begun
  process_job-IsStarted id k w r =
      let w1 : W = (ports.repository.get_by_id id w).1 in
      let t : Time = (ports.now w1).0 in
      let w2 : W = (ports.now w1).1 in
      let same = laws.get_by_id_same id w in
      let now = laws.now_same w1 in
      let found = healthy.get_ok id k w r.row r.same in
      let at1 : stored w1 id ≡ some k = same.stored id ∙ r.row in
      let at : stored w1 k.id ≡ some k = ap (stored w1) r.same ∙ at1 in
      let past : k.updated_at.instant ≤ reading w1 =
        omega (arith, r.past, healthy.get_reading id w) in
      let saved = saved_processing_ok id k w1 r.pending past at in
      let later = observed_reading (started t k) k.status w2 in
      let frame = observed-SameBut verbs ports laws id (started t k) k.status w2 r.same in
      let row = now.stored id ∙ at1 in
      let updated = healthy.update_ok (started t k) k w2 (now.stored k.id ∙ at) in
      (
        started t k,
        begun t k w2,
        record {
          runs_next =
              process_job_valid verbs ports laws id w r.valid
              ∙ load_done verbs ports laws id k w found
              ∙ ap (after_load verbs ports laws id) saved;
          same = r.same;
          processing = refl;
          retry_count = refl;
          max_retries = refl;
          past = omega (arith, healthy.now_to w1, later);
          row =
              observed-row verbs ports laws id k (started t k) k.status w2 r.same valid_processing
                row updated;
          queue = frame.queued ∙ now.queued ∙ same.queued;
        },
      )
