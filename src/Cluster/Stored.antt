-- ===== src/Cluster/Stored.antt =====
-- What the dispatcher takes from the queue, and what the workers execute, has a row.
use mathlib.Core.Path.{subst}
use async_job_poc.Base.{
  ℕ, ◌<◌, ◌≡◌, refl, inl, inr, Option-cases, Bool-cases, some, true, List, [], ◌∷◌, ◌++◌, All,
  All-last, All-map, get_elem?, total-ge, arith,
}
use async_job_poc.Text.{Text, text_eq}
use async_job_poc.Text.Equality.{text_eq_iff, text_eq_refl}
use async_job_poc.Errors.{Verbs}
use async_job_poc.Job.Id
use async_job_poc.Job.Payload.{Unmarshal}
use async_job_poc.Job.Entity.{Job}
use async_job_poc.UseCase.Ports.{JobConsumer, Ports, PortLaws}
use async_job_poc.UseCase.System.{AreStored, Event-AreStored, Event-KeepsAt}
use async_job_poc.Worker
use async_job_poc.Worker.{Pool, busy}
use async_job_poc.Worker.Cases.{busy_at}
use async_job_poc.Worker.Processor.{processing}
use async_job_poc.Worker.Delivery.{
  IsAccounted, start-IsAccounted, step-IsAccounted, in_hand, count, count-append, executes,
}
use async_job_poc.Cluster.{Node, Turn, begin, turn, turns}
use async_job_poc.Cluster.Steps.{turn-TurnEnds, some-injective}
use async_job_poc.Cluster.Consumer.{AreValid, ConsumerLaws}

-- An ID that is counted satisfies what all satisfy.
pub All-count : (P : Text → Type 0) (xs : List Text) (id : Text) → All P xs → 0 < count id xs → P id
All-count P [] id a h = absurd (omega arith)
All-count P (x ∷ xs) id (p, a) h = elim (Bool-cases (text_eq x id)) [
  | inl e ↦ subst P ((text_eq_iff x id).0 e) p
  | inr e ↦ All-count P xs id a (ground arith)
]

-- The ID that a worker executes was taken from the queue.
busy-taken :
    (p : Pool) (i : ℕ) {id : Text}
    → IsAccounted p
    → busy (get_elem? p.workers i) ≡ some id
    → 0 < count id p.taken
busy-taken p i {id} a h =
    let at = busy_at (get_elem? p.workers i) h in
    let one : executes id (processing id) ≡ 1 = rw (text_eq_refl id) refl in
    rw a.order (
      omega (
        arith,
        one,
        total-ge (executes id) p.workers i at,
        a.executed id,
        count-append id (in_hand p.dispatcher) (p.dropped ++ p.handed),
        count-append id p.dropped p.handed,
      ))

module _ {W : Type 0} (unmarshal : Unmarshal) (verbs : Verbs) (ports : Ports W)
    (laws : PortLaws ports) (dequeue_id : JobConsumer W)
    (consumes : ConsumerLaws laws dequeue_id) where
  open laws use {view}
  open view use {stored, queued}

  -- An ID that the domain allows, of a row.
  abbrev pub IsKnown : W → Text → Type 0
  IsKnown w id = (Id.is_valid id ≡ true) × ((r : Job) × (stored w id ≡ some r))

  -- The IDs of the queue, and those that the dispatcher took.
  pub record IsSound (n : Node W) : Type 0 where
    pub valid : AreValid (queued n.world)
    pub rows : AreStored unmarshal verbs ports laws n.world
    pub taken : All (IsKnown n.world) n.pool.taken
    pub accounted : IsAccounted n.pool

  pub turn-IsSound :
      (n : Node W) (t : Turn) {m : Node W}
      → turn unmarshal verbs ports dequeue_id n t ≡ some m
      → IsSound n
      → IsSound m
  unfolding AreStored
  turn-IsSound n t {m} h s =
      let d = turn-TurnEnds unmarshal verbs ports laws dequeue_id consumes n t s.valid h in
      let still : (id : Text) → IsKnown n.world id → IsKnown m.world id = λ id (v, (r, at)).
        let (r', at', _) = (Event-KeepsAt unmarshal verbs ports laws id d.event).row r at in
        (v, (r', at')) in
      record {
        valid = d.valid;
        rows = Event-AreStored unmarshal verbs ports laws d.event s.rows;
        taken = elim d.taken [
          | inl e ↦ rw e (All-map n.pool.taken still s.taken)
          | inr (id, e, q) ↦
              let v = All-last (λ x. Id.is_valid x ≡ true) (queued m.world) id (rw q at s.valid) in
              let r =
                All-last (λ x. (r : Job) × (stored n.world x ≡ some r)) (queued m.world) id
                  (rw q at s.rows) in
              rw e (still id (v, r), All-map n.pool.taken still s.taken)
        ];
        accounted = elim d.pool [
          | inl e ↦ rw e s.accounted
          | inr (e, k) ↦ step-IsAccounted n.pool e k s.accounted
        ];
      }

  pub turns_split :
      (n : Node W) (t : Turn) (ts : List Turn) {m : Node W}
      → turns unmarshal verbs ports dequeue_id n (t ∷ ts) ≡ some m
      → (m' : Node W) × (turn unmarshal verbs ports dequeue_id n t ≡ some m')
        × (turns unmarshal verbs ports dequeue_id m' ts ≡ some m)
  unfolding turns
  turns_split n t ts h = elim (Option-cases (turn unmarshal verbs ports dequeue_id n t)) [
    | inl k ↦ absurd (ground arith)
    | inr (m', k) ↦ (m', k, ground arith)
  ]

  pub turns-IsSound :
      (ts : List Turn) (n : Node W) {m : Node W}
      → turns unmarshal verbs ports dequeue_id n ts ≡ some m
      → IsSound n
      → IsSound m
  unfolding turns
  turns-IsSound [] n h s = subst IsSound (some-injective h) s
  turns-IsSound (t ∷ ts) n h s =
      let (m', k, rest) = turns_split n t ts h in turns-IsSound ts m' rest (turn-IsSound n t k s)

  -- When Run begins, nothing was taken.
  pub started-IsSound :
      (w : W) → AreValid (queued w) → AreStored unmarshal verbs ports laws w → IsSound (begin w)
  unfolding Worker.start
  started-IsSound w v a = record { valid = v; rows = a; taken = tt; accounted = start-IsAccounted }

  -- Whatever the calls report and in whatever order the turns come, from a queue of valid IDs that
  -- have rows, every ID that a worker executes is valid and has a row.
  pub executes_known :
      (ts : List Turn) (w : W) {m : Node W} (i : ℕ) {id : Text}
      → turns unmarshal verbs ports dequeue_id (begin w) ts ≡ some m
      → AreValid (queued w)
      → AreStored unmarshal verbs ports laws w
      → busy (get_elem? m.pool.workers i) ≡ some id
      → IsKnown m.world id
  executes_known ts w {m} i {id} h v a b =
      let s = turns-IsSound ts (begin w) h (started-IsSound w v a) in
      All-count (IsKnown m.world) m.pool.taken id s.taken (busy-taken m.pool i s.accounted b)
