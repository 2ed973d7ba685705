-- ===== src/UseCase/System.antt =====
-- Any number of runs of CreateJob.Execute and ProcessJob.Execute, one after the other, over one
-- database and one queue, with IDs taken from the queue in between.
use async_job_poc.Base.{
  ◌≡◌, ◌≢◌, refl, ap, ◌∙◌, ◌⊎◌, inl, inr, Bool-cases, none, some, [], ◌∷◌, ◌++◌, All, All-init,
  All-map,
}
use async_job_poc.Text.{Text, text_eq}
use async_job_poc.Text.Equality.{text_eq_iff}
use async_job_poc.Errors.{Verbs, Result-cases}
use async_job_poc.Job.Payload.{Unmarshal}
use async_job_poc.Job.Entity.{Job}
use async_job_poc.Job.Transitions.{IsTerminal, terminal_absorbs}
use async_job_poc.Job.History.{Step, processing, success, failed, failure, Reach, here, next}
use async_job_poc.UseCase.Ports.{Ports, PortLaws, Same, overwrite, row_of, IsNamed}
use async_job_poc.UseCase.CreateJob.{CreateJobInput, submit, create_job}
use async_job_poc.UseCase.CreateJob.Laws.{
  before_submit, made, made-Same, submit_created, submit_refused, created, IsFresh-IsNamed,
}
use async_job_poc.UseCase.CreateJob.Publishing.{create_job-safe, QueuedFresh}
use async_job_poc.UseCase.ProcessJob.{process_job}
use async_job_poc.UseCase.ProcessJob.Safety.{process_job-Processed}

no_step : {j k : Job} → Step j k → IsTerminal j → ⊥
no_step (processing at j h) t = (terminal_absorbs at [] j t).4 h
no_step (success at j h) t = (terminal_absorbs at [] j t).5 h
no_step (failed at reason j h) t = (terminal_absorbs at reason j t).6 h
no_step (failure at reason j h) t = let no_result = (terminal_absorbs at reason j t).7 in cc

IsTerminal-along : (j k : Job) → k.status ≡ j.status → IsTerminal j → IsTerminal k
IsTerminal-along j k e (inl p) = inl (e ∙ p)
IsTerminal-along j k e (inr p) = inr (e ∙ p)

-- Transitions do not leave a terminal status.
Reach-terminal : {j k : Job} → Reach j k → IsTerminal j → k.status ≡ j.status
Reach-terminal here t = refl
Reach-terminal {j = j} (next {k = k} r s) t =
    absurd (no_step s (IsTerminal-along j k (Reach-terminal r t) t))

text_cases : (s t : Text) → (s ≡ t) ⊎ (s ≢ t)
text_cases s t = elim (Bool-cases (text_eq s t)) [
  | inl h ↦ inl ((text_eq_iff s t).0 h)
  | inr h ↦ inr (λ e. let h' = (text_eq_iff s t).1 e in cc)
]

module _ {W : Type 0} (unmarshal : Unmarshal) (verbs : Verbs) (ports : Ports W)
    (laws : PortLaws ports) where
  open laws use {view, round, normalize}
  open view use {stored, queued}

  -- The row of `id` is kept, and so is its status if it is terminal.
  pub record KeepsAt (id : Text) (w w' : W) : Type 0 where
    pub row :
        (k : Job)
        → stored w id ≡ some k
        → (r : Job) × (stored w' id ≡ some r) × (IsTerminal k → r.status ≡ k.status)

  KeepsAt-of_same : (id : Text) {w w' : W} → stored w' id ≡ stored w id → KeepsAt id w w'
  KeepsAt-of_same id e = record { row = λ k at. (k, e ∙ at, λ t. refl) }

  KeepsAt-of_none : (id : Text) {w w' : W} → stored w id ≡ none → KeepsAt id w w'
  KeepsAt-of_none id e = record { row = λ k at. cc }

  KeepsAt-trans :
      (id : Text) {w w' w'' : W} → KeepsAt id w w' → KeepsAt id w' w'' → KeepsAt id w w''
  KeepsAt-trans id f g = record {
    row = λ k at.
        let (r, at', e) = f.row k at in
        let (s, at'', e') = g.row r at' in (s, at'', λ t. e' (IsTerminal-along k r (e t) t) ∙ e t);
  }

  process_job-KeepsAt : (done id : Text) (w : W) → KeepsAt id w (process_job verbs ports done w).1
  process_job-KeepsAt done id w =
      let p = process_job-Processed verbs ports laws done w in
      elim (text_cases id done) [
        | inr other ↦ KeepsAt-of_same id (p.other id other)
        | inl same ↦ rw same (elim p.row [
          | inl e ↦ KeepsAt-of_same done e
          | inr (k, l, at, r, e) ↦ record {
            row = λ k' at'.
                let one : k' ≡ k = cc in (overwrite round k l, e, rw one (Reach-terminal r));
          }
        ])
      ]

  submit-KeepsAt :
      (j : Job) (id : Text) (w : W) → IsNamed j → KeepsAt id w (submit unmarshal ports j w).1
  unfolding created
  submit-KeepsAt j id w v =
      let w1 : W = (ports.repository.create j w).1 in
      elim (Result-cases (ports.repository.create j w).0) [
        | inl (u, c) ↦ elim (text_cases id j.id) [
          | inl same ↦ KeepsAt-of_none id (ap (stored w) same ∙ (laws.create_ok j w v c).0)
          | inr other ↦ rw (submit_created unmarshal ports laws j w c) (
              KeepsAt-of_same id (
                laws.enqueue_stored j.id (created unmarshal ports laws j w) id
                ∙ (laws.status_persisted_same j [] w1).stored id
                ∙ (laws.create_other j w).stored id other))
        ]
        | inr (e, c) ↦ rw (submit_refused unmarshal ports laws j w c) (elim (text_cases id j.id) [
          | inr other ↦ KeepsAt-of_same id ((laws.create_other j w).stored id other)
          | inl same ↦ rw same (elim (laws.create_err j w v c) [
            | inl p ↦ KeepsAt-of_same j.id p
            | inr (absent, p) ↦ KeepsAt-of_none j.id absent
          ])
        ])
      ]

  create_job-KeepsAt :
      (input : CreateJobInput) (id : Text) (w : W)
      → KeepsAt id w (create_job unmarshal ports input w).1
  create_job-KeepsAt input id w = elim (before_submit unmarshal ports laws input w) [
    | inr (fails, same) ↦ KeepsAt-of_same id (same.stored id)
    | inl (j, fresh, e) ↦ rw e (
        KeepsAt-trans id (KeepsAt-of_same id ((made-Same unmarshal ports laws w).stored id)) (
          submit-KeepsAt j id (made unmarshal ports laws w)
            (IsFresh-IsNamed unmarshal ports laws j fresh)))
  ]

  -- One event: a call of a use case, an ID that is taken from the end of the queue, or a call that
  -- changes neither the rows nor the queue.
  pub data Event (w : W) : W → Type 0 where
    create : (input : CreateJobInput) → Event w (create_job unmarshal ports input w).1
    process : (id : Text) → Event w (process_job verbs ports id w).1
    take :
        (id : Text) {w' : W}
        → ((o : Text) → stored w' o ≡ stored w o)
        → queued w ≡ queued w' ++ id ∷ []
        → Event w w'
    unseen : {w' : W} → Same view w w' → Event w w'

  pub data Events (w : W) : W → Type 0 where
    start : Events w w
    followed : {w' w'' : W} → Events w w' → Event w' w'' → Events w w''

  -- Every queued ID has a row.
  unfoldable pub AreStored : W → Type 0
  AreStored w = All (λ id. (r : Job) × (stored w id ≡ some r)) (queued w)

  pub Event-KeepsAt : (id : Text) {w w' : W} → Event w w' → KeepsAt id w w'
  Event-KeepsAt id {w} (create input) = create_job-KeepsAt input id w
  Event-KeepsAt id {w} (process done) = process_job-KeepsAt done id w
  Event-KeepsAt id (take taken same q) = KeepsAt-of_same id (same id)
  Event-KeepsAt id (unseen same) = KeepsAt-of_same id (same.stored id)

  -- The IDs that were queued before an event still have rows.
  still :
      {w w' : W}
      → ((id : Text) → KeepsAt id w w')
      → AreStored w
      → All (λ id. (r : Job) × (stored w' id ≡ some r)) (queued w)
  unfolding AreStored
  still {w} keeps a =
      All-map (queued w) (λ id (k, at). let (r, at', e) = (keeps id).row k at in (r, at')) a

  pub Event-AreStored : {w w' : W} → Event w w' → AreStored w → AreStored w'
  unfolding AreStored QueuedFresh
  Event-AreStored {w} (create input) a =
      let old = still (λ id. create_job-KeepsAt input id w) a in
      elim (create_job-safe unmarshal ports laws input w) [
        | inl q ↦ rw q old
        | inr (j, fresh, absent, q, row) ↦ rw q ((row_of round normalize j, row), old)
      ]
  Event-AreStored {w} (process id) a =
      let old = still (λ o. process_job-KeepsAt id o w) a in
      elim (process_job-Processed verbs ports laws id w).queue [
        | inl q ↦ rw q old
        | inr (q, (r, row, p)) ↦ rw q ((r, row), old)
      ]
  Event-AreStored {w} {w'} (take id same q) a =
      All-init _ (queued w') id (rw q at (still (λ o. KeepsAt-of_same o (same o)) a))
  Event-AreStored {w} {w'} (unseen same) a =
      rw same.queued (still (λ o. KeepsAt-of_same o (same.stored o)) a)

  pub KeepsAt-Events : (id : Text) {w w' : W} → Events w w' → KeepsAt id w w'
  KeepsAt-Events id start = KeepsAt-of_same id refl
  KeepsAt-Events id (followed es e) = KeepsAt-trans id (KeepsAt-Events id es) (Event-KeepsAt id e)

  -- Through any sequence of creations, processing and removals from the queue, whatever the ports
  -- report, a row whose status is success or failed is not lost and keeps that status.
  pub terminal_is_final :
      {w w' : W} (id : Text) (k : Job)
      → Events w w'
      → stored w id ≡ some k
      → IsTerminal k
      → (r : Job) × (stored w' id ≡ some r) × (r.status ≡ k.status)
  terminal_is_final id k es at t =
      let (r, at', e) = (KeepsAt-Events id es).row k at in (r, at', e t)

  -- Through any sequence of creations, processing and removals from the queue, whatever the ports
  -- report, every queued ID has a row, if this held at first.
  pub queued-AreStored : {w w' : W} → Events w w' → AreStored w → AreStored w'
  queued-AreStored start a = a
  queued-AreStored (followed es e) a = Event-AreStored e (queued-AreStored es a)
