-- ===== src/Cluster/Steps.antt =====
-- What one turn of the cluster does to its pool and to its store.
use mathlib.Core.Path.{subst}
use async_job_poc.Base.{
  sym, ap, ◌∙◌, ◌≡◌, refl, ◌⊎◌, inl, inr, Option, none, some, Option-cases, [], ◌∷◌, ◌++◌, All-init,
  Bool-cases, true, get_elem?, ℕ, arith,
}
use async_job_poc.Text.{Text}
use async_job_poc.Errors.{Verbs, Result, Result-cases}
use async_job_poc.Job.Id
use async_job_poc.Job.Payload.{Unmarshal}
use async_job_poc.UseCase.Ports.{JobConsumer, Ports, PortLaws}
use async_job_poc.UseCase.CreateJob.{CreateJobInput, create_job}
use async_job_poc.UseCase.CreateJob.Publishing.{create_job-safe, QueuedFresh}
use async_job_poc.UseCase.ProcessJob.{process_job}
use async_job_poc.UseCase.ProcessJob.Safety.{process_job-Processed, process_job_invalid}
use async_job_poc.UseCase.System.{Event, take, unseen}
use async_job_poc.Worker
use async_job_poc.Worker.{Pool, busy, record_taken}
use async_job_poc.Cluster.{
  Node, Turn, create, dequeue, execute, finish, other, is_quiet, put, placed, turn,
}
use async_job_poc.Cluster.Consumer.{AreValid, ConsumerLaws}

pub placed-some :
    {W : Type 0} (w : W) (returns : ℕ → Option (Result (Unit {0}))) (o : Option Pool) {m : Node W}
    → placed w returns o ≡ some m
    → (o ≡ some m.pool) × (w ≡ m.world)
placed-some w returns none h = cc
placed-some w returns (some p) h = (cc, cc)

pub some-injective : {A : Type 0} {a b : A} → some a ≡ some b → a ≡ b
some-injective h = cc

pub none_there : {A : Type 0} {a : A} → none ≡ some a → ⊥
none_there h = cc

-- What the events do to the IDs that were taken.
pub step-dequeue :
    (p : Pool) (r : Result Text) {q : Pool}
    → Worker.step p (Worker.dequeue r) ≡ some q
    → q.taken ≡ record_taken r p.taken
unfolding Worker.step
step-dequeue p r h = ground arith

pub step-finish :
    (p : Pool) (i : ℕ) (r : Result (Unit {0})) {q : Pool}
    → Worker.step p (Worker.finish i r) ≡ some q
    → q.taken ≡ p.taken
unfolding Worker.step
step-finish p i r h = ground arith

pub step-quiet :
    (p : Pool) (e : Worker.Event) {q : Pool}
    → is_quiet e ≡ true
    → Worker.step p e ≡ some q
    → q.taken ≡ p.taken
unfolding Worker.step is_quiet
step-quiet p Worker.cancel b h = ground arith
step-quiet p (Worker.dequeue r) b h = cc
step-quiet p Worker.timer b h = ground arith
step-quiet p Worker.dispatcher_done b h = ground arith
step-quiet p (Worker.hand_over i) b h = ground arith
step-quiet p (Worker.worker_done i) b h = ground arith
step-quiet p (Worker.channel_closed i) b h = ground arith
step-quiet p (Worker.finish i r) b h = cc

module _ {W : Type 0} (unmarshal : Unmarshal) (verbs : Verbs) (ports : Ports W)
    (laws : PortLaws ports) (dequeue_id : JobConsumer W)
    (consumes : ConsumerLaws laws dequeue_id) where
  open laws use {view}
  open view use {stored, queued, runs}

  create_job-AreValid :
      (input : CreateJobInput) (w : W)
      → AreValid (queued w)
      → AreValid (queued (create_job unmarshal ports input w).1)
  unfolding QueuedFresh
  create_job-AreValid input w a = elim (create_job-safe unmarshal ports laws input w) [
    | inl q ↦ rw q a
    | inr (j, fresh, absent, q, row) ↦ rw q (fresh.0.id, a)
  ]

  process_job-AreValid :
      (id : Text) (w : W) → AreValid (queued w) → AreValid (queued (process_job verbs ports id w).1)
  process_job-AreValid id w a = elim (Bool-cases (Id.is_valid id)) [
    | inr v ↦ rw (process_job_invalid verbs ports laws id w v) a
    | inl v ↦ elim (process_job-Processed verbs ports laws id w).queue [
      | inl q ↦ rw q a
      | inr (q, row) ↦ rw q (v, a)
    ]
  ]

  -- What Dequeue does to the store is an event of it.
  pub dequeue-Event :
      (w : W)
      → AreValid (queued w)
      → Event unmarshal verbs ports laws w (dequeue_id w).1 × AreValid (queued (dequeue_id w).1)
  dequeue-Event w a =
      let lost : (id : Text)
          → queued w ≡ queued (dequeue_id w).1 ++ id ∷ []
          → Event unmarshal verbs ports laws w (dequeue_id w).1
            × AreValid (queued (dequeue_id w).1) =
        λ id q. (
          take id (consumes.dequeue_stored w) q,
          All-init (λ s. Id.is_valid s ≡ true) (queued (dequeue_id w).1) id (rw q at a),
        ) in
      elim (Result-cases (dequeue_id w).0) [
        | inl (id, h) ↦ lost id (consumes.dequeue_ok w a h)
        | inr (e, h) ↦ elim (consumes.dequeue_err w h) [
          | inr (id, q) ↦ lost id q
          | inl q ↦ (
            unseen (record {
              stored = consumes.dequeue_stored w;
              queued = q;
              runs = consumes.dequeue_runs w;
            }),
            rw q a,
          )
        ]
      ]

  -- What a turn does to the store and to the pool. An ID that the dispatcher took was the oldest of
  -- the queue.
  pub record TurnEnds (n m : Node W) : Type 0 where
    pub event : Event unmarshal verbs ports laws n.world m.world
    pub valid : AreValid (queued m.world)
    pub pool : (m.pool ≡ n.pool) ⊎ ((e : Worker.Event) × (Worker.step n.pool e ≡ some m.pool))
    pub taken :
        (m.pool.taken ≡ n.pool.taken)
        ⊎ ((id : Text) × (m.pool.taken ≡ id ∷ n.pool.taken)
            × (queued n.world ≡ queued m.world ++ id ∷ []))

  -- Nothing happens to the store.
  nothing : (w : W) → Event unmarshal verbs ports laws w w
  nothing w = unseen (record { stored = λ id. refl; queued = refl; runs = refl })

  module _ (n : Node W) (valid : AreValid (queued n.world)) where
    create-TurnEnds :
        (input : CreateJobInput)
        → TurnEnds n (record n { world = (create_job unmarshal ports input n.world).1 })
    create-TurnEnds input = record {
      event = Event.create input;
      valid = create_job-AreValid input n.world valid;
      pool = inl refl;
      taken = inl refl;
    }

    -- An event of the pool that leaves the IDs that were taken, beside an event of the store.
    pool-TurnEnds :
        (e : Worker.Event) (w : W) (returns : ℕ → Option (Result (Unit {0}))) {m : Node W}
        → ((q : Pool) → Worker.step n.pool e ≡ some q → q.taken ≡ n.pool.taken)
        → Event unmarshal verbs ports laws n.world w
        → AreValid (queued w)
        → placed w returns (Worker.step n.pool e) ≡ some m
        → TurnEnds n m
    pool-TurnEnds e w returns {m} keeps ev v h =
        let (p, q) = placed-some w returns (Worker.step n.pool e) h in
        record {
          event = subst (λ x. Event unmarshal verbs ports laws n.world x) q ev;
          valid = subst (λ x. AreValid (queued x)) q v;
          pool = inr (e, p);
          taken = inl (keeps m.pool p);
        }

    dequeue-TurnEnds :
        {m : Node W}
        → placed
            (dequeue_id n.world).1
            n.returns
            (Worker.step n.pool (Worker.dequeue (dequeue_id n.world).0))
          ≡ some m
        → TurnEnds n m
    dequeue-TurnEnds {m} h =
        let (ev, v) = dequeue-Event n.world valid in
        let (p, q) = placed-some (dequeue_id n.world).1 n.returns _ h in
        record {
          event = subst (λ x. Event unmarshal verbs ports laws n.world x) q ev;
          valid = subst (λ x. AreValid (queued x)) q v;
          pool = inr (Worker.dequeue (dequeue_id n.world).0, p);
          taken = elim (Result-cases (dequeue_id n.world).0) [
            | inl (id, r) ↦ inr (
              id,
              step-dequeue n.pool (dequeue_id n.world).0 p
                  ∙ ap (λ x. record_taken x n.pool.taken) r,
              rw (sym q) (consumes.dequeue_ok n.world valid r),
            )
            | inr (e, r) ↦ inl (
                step-dequeue n.pool (dequeue_id n.world).0 p
                ∙ ap (λ x. record_taken x n.pool.taken) r)
          ];
        }

  pub turn-TurnEnds :
      (n : Node W) (t : Turn) {m : Node W}
      → AreValid (queued n.world)
      → turn unmarshal verbs ports dequeue_id n t ≡ some m
      → TurnEnds n m
  unfolding turn
  turn-TurnEnds n (create input) v h =
      subst (λ x. TurnEnds n x) (some-injective h) (create-TurnEnds n v input)
  turn-TurnEnds n dequeue v h = dequeue-TurnEnds n v h
  turn-TurnEnds n (execute i) v h = elim (Option-cases (busy (get_elem? n.pool.workers i))) [
    | inl b ↦ absurd (none_there (rw b at h))
    | inr (id, b) ↦ elim (Option-cases (n.returns i)) [
      | inr (r, c) ↦ absurd (none_there (rw (b, c) at h))
      | inl c ↦
          subst (λ x. TurnEnds n x) (some-injective (rw (b, c) at h))
            (record {
              event = Event.process id;
              valid = process_job-AreValid id n.world v;
              pool = inl refl;
              taken = inl refl;
            })
    ]
  ]
  turn-TurnEnds n (finish i) v h = elim (Option-cases (n.returns i)) [
    | inl c ↦ absurd (none_there (rw c at h))
    | inr (r, c) ↦
        pool-TurnEnds n v (Worker.finish i r) n.world (put n.returns i none)
          (λ q k. step-finish n.pool i r k) (nothing n.world) v (rw c at h)
  ]
  turn-TurnEnds n (other e) v h = elim (Bool-cases (is_quiet e)) [
    | inr b ↦ absurd (none_there (rw b at h))
    | inl b ↦
        pool-TurnEnds n v e n.world n.returns (λ q k. step-quiet n.pool e b k) (nothing n.world) v
          (rw b at h)
  ]
