-- ===== src/UseCase/ProcessJob/Safety.antt =====
-- What ProcessJob.Execute can do to the world, on every branch, errors of the ports included.
use async_job_poc.Base.{
  ◌+◌, ◌≡◌, ◌≢◌, refl, sym, ap, ◌∙◌, ◌⊎◌, inl, inr, Bool-cases, Option, none, some, ◌∷◌, arith,
  true, false,
}
use async_job_poc.Text.{Text}
use async_job_poc.Time.{Time}
use async_job_poc.Errors.{Error, Verbs, Result, ok, err, Result-cases}
use async_job_poc.Job.Id
use async_job_poc.Job.Entity.{Job}
use async_job_poc.Job.Status.{status_pending}
use async_job_poc.Job.Lifecycle.{mark_processing}
use async_job_poc.Job.Transitions.{is_valid-mark_processing}
use async_job_poc.Job.History.{Reach, here, next, processing, Reach-trans}
use async_job_poc.UseCase.Ports.{Ports, PortLaws, Same, SameBut, overwrite}
use async_job_poc.UseCase.ProcessJob.{about, run, load_and_run, process_job}
use async_job_poc.UseCase.ProcessJob.Effects.{save-SaveEnds, SaveEnds}
use async_job_poc.UseCase.ProcessJob.Running.{run-Ends, mark_processing-id, saved_processing}

module _ {W : Type 0} (verbs : Verbs) (ports : Ports W) (laws : PortLaws ports) where
  open laws use {view, round}
  open view use {stored, queued, runs}

  -- From `w` to `w'`: no other job's row changes; the row of `id` is the same, or the entity that it
  -- held has made legal transitions; `id` is queued at most once, and only if its row is pending
  -- then; the executor is called at most once.
  pub record Processed (id : Text) (w w' : W) : Type 0 where
    pub other : (o : Text) → o ≢ id → stored w' o ≡ stored w o
    pub row :
        (stored w' id ≡ stored w id)
        ⊎ ((k l : Job) × (stored w id ≡ some k)
            × Reach k l
            × (stored w' id ≡ some (overwrite round k l)))
    pub queue :
        (queued w' ≡ queued w)
        ⊎ ((queued w' ≡ id ∷ queued w)
            × ((r : Job) × (stored w' id ≡ some r) × (r.status ≡ status_pending)))
    pub calls : (runs w' ≡ runs w) ⊎ (runs w' ≡ runs w + 1)

  Processed-of_Same : (id : Text) {w w' : W} → Same view w w' → Processed id w w'
  Processed-of_Same id s = record {
    other = λ o h. s.stored o;
    row = inl (s.stored id);
    queue = inl s.queued;
    calls = inl s.runs;
  }

  Processed-after :
      (id : Text) {w w' w'' : W} → Same view w w' → Processed id w' w'' → Processed id w w''
  Processed-after id s e = record {
    other = λ o h. e.other o h ∙ s.stored o;
    row = elim e.row [
      | inl p ↦ inl (p ∙ s.stored id)
      | inr (k, l, p, r, q) ↦ inr (k, l, sym (s.stored id) ∙ p, r, q)
    ];
    queue = elim e.queue [
      | inl q ↦ inl (q ∙ s.queued)
      | inr (q, p) ↦ inr (q ∙ ap (◌∷◌ id) s.queued, p)
    ];
    calls = omega (arith, e.calls, s.runs);
  }

  pub load_refused :
      (id : Text) (w : W) {e : Error}
      → (ports.repository.get_by_id id w).0 ≡ err e
      → (load_and_run verbs ports id w).1 ≡ (ports.repository.get_by_id id w).1
  unfolding load_and_run
  load_refused id w h = ground arith

  unfoldable pub after_load : Text → Result Job × W → Result (Unit {0}) × W
  after_load id (ok l, w) = run verbs ports id l w
  after_load id (err e, w) = (err e, w)

  pub load_done :
      (id : Text) (k : Job) (w : W)
      → (ports.repository.get_by_id id w).0 ≡ ok k
      → load_and_run verbs ports id w
        ≡ after_load id (saved_processing verbs ports laws id k (ports.repository.get_by_id id w).1)
  unfolding load_and_run saved_processing after_load
  load_done id k w h = ground arith

  processing-Reach :
      (at : Time) (k : Job) → (mark_processing at k).0 ≡ none → Reach k (mark_processing at k).1
  processing-Reach at k h = next here (processing at k h)

  after_load-Processed :
      (id : Text) (k : Job) (m : Option Error × Job) {w : W} (r : Result Job) (w' : W)
      → stored w id ≡ some k
      → m.1.id ≡ id
      → (m.0 ≡ none → Reach k m.1)
      → SameBut view id w w'
      → SaveEnds verbs ports laws m id k (r, w')
      → Processed id w (after_load id (r, w')).1
  unfolding after_load
  after_load-Processed id k m (err e) w' at same reach s (inl p) = record {
    other = s.stored;
    row = inl (p ∙ sym at);
    queue = inl s.queued;
    calls = inl s.runs;
  }
  after_load-Processed id k m (err e) w' at same reach s (inr (p, q)) = record {
    other = s.stored;
    row = inr (k, m.1, at, reach p, q);
    queue = inl s.queued;
    calls = inl s.runs;
  }
  after_load-Processed id k m (ok l) w' at same reach s (p, e, q) =
      let t =
        run-Ends verbs ports laws id k l w' (ap (λ (j : Job). j.id) e ∙ same)
          (q ∙ ap (λ j. some (overwrite round k j)) (sym e)) in
      let (n, r, row) = t.row in
      record {
        other = λ o h. t.other o h ∙ s.stored o h;
        row = inr (k, n, at, Reach-trans (reach p) (rw e at r), row);
        queue = elim t.queue [
          | inl c ↦ inl (c ∙ s.queued)
          | inr (c, d) ↦ inr (c ∙ ap (◌∷◌ id) s.queued, d)
        ];
        calls = inr (omega (arith, t.calls, s.runs));
      }

  saved-Processed :
      (id : Text) (k : Job) (w : W)
      → k.id ≡ id
      → stored w id ≡ some k
      → Processed id w (after_load id (saved_processing verbs ports laws id k w)).1
  unfolding saved_processing
  saved-Processed id k w same at =
      let now = laws.now_same w in
      let t : Time = (ports.now w).0 in
      let m : Option Error × Job = mark_processing t k in
      let m-id : m.1.id ≡ id = mark_processing-id verbs ports laws t k ∙ same in
      let at' = now.stored id ∙ at in
      let (s, e) =
        save-SaveEnds verbs ports laws (about "mark job " id " as processing: ")
          (about "persist processing status for job " id ": ") k.status m id k (ports.now w).1 m-id
          (is_valid-mark_processing t k) at' in
      Processed-after id now (
        after_load-Processed id k m (saved_processing verbs ports laws id k w).0
          (saved_processing verbs ports laws id k w).1 at' m-id (processing-Reach t k) s e)

  load_and_run-Processed : (id : Text) (w : W) → Processed id w (load_and_run verbs ports id w).1
  load_and_run-Processed id w = elim (Result-cases (ports.repository.get_by_id id w).0) [
    | inl (k, h) ↦
        let same = laws.get_by_id_same id w in
        let (at, same_id) = laws.get_by_id_ok id w h in
        rw (load_done id k w h) (
          Processed-after id same (
            saved-Processed id k (ports.repository.get_by_id id w).1 same_id (same.stored id ∙ at)))
    | inr (e, h) ↦ rw (load_refused id w h) (Processed-of_Same id (laws.get_by_id_same id w))
  ]

  pub process_job_valid :
      (id : Text) (w : W)
      → Id.is_valid id ≡ true
      → process_job verbs ports id w ≡ load_and_run verbs ports id w
  unfolding process_job
  process_job_valid id w h = rw h

  pub process_job_invalid :
      (id : Text) (w : W) → Id.is_valid id ≡ false → (process_job verbs ports id w).1 ≡ w
  unfolding process_job
  process_job_invalid id w h = rw h

  -- Whatever the repository, the queue and the executor report, processing a job changes no other
  -- job, moves its own row by legal transitions only, queues its ID at most once and only with the
  -- row pending already, and calls the executor at most once.
  pub process_job-Processed : (id : Text) (w : W) → Processed id w (process_job verbs ports id w).1
  process_job-Processed id w = elim (Bool-cases (Id.is_valid id)) [
    | inl h ↦ rw (process_job_valid id w h) (load_and_run-Processed id w)
    | inr h ↦
        rw (process_job_invalid id w h)
          (Processed-of_Same id (record { stored = λ o. refl; queued = refl; runs = refl }))
  ]
