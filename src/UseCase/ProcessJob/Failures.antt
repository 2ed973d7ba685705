-- ===== src/UseCase/ProcessJob/Failures.antt =====
-- What handleExecutionFailure can do to the world, on every branch.
use async_job_poc.Base.{true, ℕ, ◌+◌, ◌≡◌, ◌≢◌, refl, sym, ap, ◌∙◌, ◌⊎◌, inl, inr, some, ◌∷◌, arith}
use mathlib.Core.Path.{subst}
use async_job_poc.Text.{Text}
use async_job_poc.Time.{Time}
use async_job_poc.Errors.{Error, Verbs, message, ok, err, Result-cases}
use async_job_poc.Job.Entity.{Job}
use async_job_poc.Job.Status
use async_job_poc.Job.Status.{status_pending}
use async_job_poc.Job.Transitions.{is_valid-record_failure}
use async_job_poc.Job.Lifecycle.{FailureOutcome, retry_scheduled, terminal_failure, record_failure}
use async_job_poc.Job.History.{Reach, here, next, failure, Reach-trans, Reach-IsSameJob}
use async_job_poc.UseCase.Ports.{Ports, PortLaws, Same, SameBut, overwrite}
use async_job_poc.UseCase.Ports.Frames.{SameBut-of_Same}
use async_job_poc.UseCase.ProcessJob.{publish, persist_failure, handle_execution_failure}
use async_job_poc.UseCase.ProcessJob.Effects.{
  update_other, update_failed, enqueue-queue, observed, observed-SameBut, observed-row,
}

module _ {W : Type 0} (verbs : Verbs) (ports : Ports W) (laws : PortLaws ports) where
  open laws use {view, round}
  open view use {stored, queued, runs}

  -- From `w`, where the row of `id` is that of `k` updated by `j`, to `w'`: the entity has made
  -- legal transitions, `id` is queued at most once and only if its row is pending, and nothing else
  -- has changed but the number of executor calls, by `n`.
  pub record Ends (n : ℕ) (id : Text) (k j : Job) (w w' : W) : Type 0 where
    pub other : (o : Text) → o ≢ id → stored w' o ≡ stored w o
    pub row : (l : Job) × Reach j l × (stored w' id ≡ some (overwrite round k l))
    pub queue :
        (queued w' ≡ queued w)
        ⊎ ((queued w' ≡ id ∷ queued w)
            × ((r : Job) × (stored w' id ≡ some r) × (r.status ≡ status_pending)))
    pub calls : runs w' ≡ runs w + n

  pub Ends-stop :
      {id : Text} {k j : Job} {w w' : W} (l : Job)
      → SameBut view id w w'
      → Reach j l
      → stored w' id ≡ some (overwrite round k l)
      → Ends 0 id k j w w'
  Ends-stop l s r e = record {
    other = s.stored;
    row = (l, r, e);
    queue = inl s.queued;
    calls = omega (arith, s.runs);
  }

  pub Ends-after :
      {n : ℕ} (id : Text) {k j l : Job} {w w' w'' : W}
      → SameBut view id w w'
      → Reach j l
      → Ends n id k l w' w''
      → Ends n id k j w w''
  Ends-after id s r e = record {
    other = λ o h. e.other o h ∙ s.stored o h;
    row = let (l, r', p) = e.row in (l, Reach-trans r r', p);
    queue = elim e.queue [
      | inl q ↦ inl (q ∙ s.queued)
      | inr (q, p) ↦ inr (q ∙ ap (◌∷◌ id) s.queued, p)
    ];
    calls = omega (arith, e.calls, s.runs);
  }

  pub enqueue-Ends :
      (id : Text) (k j : Job) (w : W)
      → j.status ≡ status_pending
      → stored w id ≡ some (overwrite round k j)
      → Ends 0 id k j w (ports.enqueue id w).1
  enqueue-Ends id k j w pending at =
      let at' = laws.enqueue_stored id w id ∙ at in
      record {
        other = λ o h. laws.enqueue_stored id w o;
        row = (j, here, at');
        queue = elim (enqueue-queue verbs ports laws w id) [
          | inl q ↦ inl q
          | inr q ↦ inr (q, (overwrite round k j, at', pending))
        ];
        calls = omega (arith, laws.enqueue_runs id w);
      }

  pub publish-world :
      (j : Job) (e : Error) (w : W)
      → (publish verbs ports j e retry_scheduled w).1 ≡ (ports.enqueue j.id w).1
  unfolding publish
  publish-world j e w = ground arith

  pub nothing_done :
      (id : Text) (k j : Job) (w : W) → stored w id ≡ some (overwrite round k j) → Ends 0 id k j w w
  nothing_done id k j w at = record {
    other = λ o h. refl;
    row = (j, here, at);
    queue = inl refl;
    calls = omega arith;
  }

  pub publish-Ends :
      (settled : FailureOutcome) (id : Text) (k j : Job) (e : Error) (w : W)
      → j.id ≡ id
      → (settled ≡ retry_scheduled → j.status ≡ status_pending)
      → stored w id ≡ some (overwrite round k j)
      → Ends 0 id k j w (publish verbs ports j e settled w).1
  unfolding publish
  publish-Ends terminal_failure id k j e w same p at = nothing_done id k j w at
  publish-Ends retry_scheduled id k j e w same p at = rw (publish-world j e w) (
      subst (λ i. Ends 0 id k j w (ports.enqueue i w).1) (sym same)
        (enqueue-Ends id k j w (p refl) at))

  -- What RecordFailure does on a success: a legal step, to pending if a retry is scheduled.
  pub record_failure_scheduled :
      (at : Time) (reason : Text) (j : Job)
      → (record_failure at reason j).0 ≡ ok retry_scheduled
      → (record_failure at reason j).1.status ≡ status_pending
  unfolding record_failure
  record_failure_scheduled at reason j h = ground arith

  -- An update of the row of `id` that fails ends the run; one that succeeds is observed.
  pub update_refused :
      (id : Text) (k j l : Job) (w : W) {e : Error}
      → l.id ≡ id
      → Status.is_valid l.status ≡ true
      → Reach j l
      → stored w id ≡ some (overwrite round k j)
      → (ports.repository.update l w).0 ≡ err e
      → Ends 0 id k j w (ports.repository.update l w).1
  update_refused id k j l w same v r at h =
      elim (update_failed verbs ports laws l (overwrite round k j) id w same v h at) [
        | inl p ↦ Ends-stop j (update_other verbs ports laws l id w same) here p
        | inr p ↦ Ends-stop l (update_other verbs ports laws l id w same) r p
      ]

  pub persist_failure_done :
      (previous : Text) (l : Job) (e : Error) (settled : FailureOutcome) (w : W)
      → (ports.repository.update l w).0 ≡ ok tt
      → (persist_failure verbs ports previous e (ok settled, l) w).1
        ≡ (publish verbs ports l e settled (observed verbs ports laws l previous w)).1
  unfolding persist_failure observed
  persist_failure_done previous l e settled w h = ground arith

  pub persist_failure_refused :
      (previous : Text) (l : Job) (e : Error) (settled : FailureOutcome) (w : W) {x : Error}
      → (ports.repository.update l w).0 ≡ err x
      → (persist_failure verbs ports previous e (ok settled, l) w).1
        ≡ (ports.repository.update l w).1
  unfolding persist_failure
  persist_failure_refused previous l e settled w h = ground arith

  pub persist_failure-Ends :
      (previous id : Text) (k j l : Job) (e : Error) (settled : FailureOutcome) (w : W)
      → l.id ≡ id
      → Status.is_valid l.status ≡ true
      → Reach j l
      → (settled ≡ retry_scheduled → l.status ≡ status_pending)
      → stored w id ≡ some (overwrite round k j)
      → Ends 0 id k j w (persist_failure verbs ports previous e (ok settled, l) w).1
  persist_failure-Ends previous id k j l e settled w same v r p at =
      elim (Result-cases (ports.repository.update l w).0) [
        | inl (u, h) ↦ rw (persist_failure_done previous l e settled w h) (
            Ends-after id (observed-SameBut verbs ports laws id l previous w same) r (
              publish-Ends settled id k l e (observed verbs ports laws l previous w) same p
                (observed-row verbs ports laws id (overwrite round k j) l previous w same v at h)))
        | inr (x, h) ↦
            rw (persist_failure_refused previous l e settled w h)
              (update_refused id k j l w same v r at h)
      ]

  pub record_failure-err :
      (at : Time) (reason : Text) (j : Job) {x : Error}
      → (record_failure at reason j).0 ≡ err x
      → record_failure at reason j ≡ (err x, j)
  unfolding record_failure
  record_failure-err at reason j h = ground arith

  pub recorded_failure-Ends :
      (id : Text) (k j : Job) (e : Error) (at : Time) (reason : Text) (w : W)
      → j.id ≡ id
      → stored w id ≡ some (overwrite round k j)
      → Ends 0 id k j w (persist_failure verbs ports j.status e (record_failure at reason j) w).1
  unfolding persist_failure
  recorded_failure-Ends id k j e at reason w same row =
      let l : Job = (record_failure at reason j).1 in
      elim (Result-cases (record_failure at reason j).0) [
        | inl (settled, h) ↦
            let r : Reach j l = next here (failure at reason j (rw h)) in
            let pending : settled ≡ retry_scheduled → l.status ≡ status_pending =
              λ q. record_failure_scheduled at reason j (h ∙ ap ok q) in
            let p : record_failure at reason j ≡ (ok settled, l) = λ i. (h i, l) in
            rw p (
              persist_failure-Ends j.status id k j l e settled w ((Reach-IsSameJob r).id ∙ same)
                (is_valid-record_failure at reason j (rw h)) r pending row)
        | inr (x, h) ↦ rw (record_failure-err at reason j h) (nothing_done id k j w row)
      ]

  -- The row of `id` is still the one before a call that changes nothing visible.
  pub Same-Ends :
      (id : Text) (k j : Job) {w w' w'' : W}
      → Same view w w'
      → Ends 0 id k j w' w''
      → Ends 0 id k j w w''
  Same-Ends id k j s e = Ends-after id (SameBut-of_Same id s) here e

  pub handle-Ends :
      (id : Text) (k j : Job) (e : Error) (w : W)
      → j.id ≡ id
      → stored w id ≡ some (overwrite round k j)
      → Ends 0 id k j w (handle_execution_failure verbs ports j e w).1
  unfolding handle_execution_failure
  handle-Ends id k j e w same at =
      let same_now = laws.now_same w in
      let at' = same_now.stored id ∙ at in
      Same-Ends id k j same_now
        (recorded_failure-Ends id k j e (ports.now w).0 (message verbs e) (ports.now w).1 same at')
