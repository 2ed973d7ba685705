-- ===== src/Redis/Fifo.antt =====
-- The queue against a first-in, first-out list of IDs, for a client that keeps a list.
use async_job_poc.Base.{
  ◌≡◌, refl, sym, ◌∙◌, ◌⊎◌, inl, inr, true, false, Bool-cases, List, [], ◌∷◌, ◌++◌, arith, All,
  All-last, ap,
}
use async_job_poc.Text.{Text}
use async_job_poc.Errors.{
  Error, FailsAs, invalid_id, job_queue_unavailable, is, ok, err, is_ok, Result-cases,
}
use async_job_poc.Job.Id
use async_job_poc.Job.Id.Laws.{parse_id-valid}
use async_job_poc.Redis.{Client, enqueue, dequeue, parse_response}

-- What Redis documents of the two commands, for the list of one name: LPUSH adds at the head; BRPOP
-- waits for an element, takes the last one and answers with the list's name and that element. A
-- command that fails may still have been carried out.
pub record ClientLaws {W : Type 0} (client : Client W) (queue_name : Text) : Type 0 where
  pub items : W → List Text
  pub lpush_ok :
      (x : Text) (w : W)
      → (client.lpush queue_name x w).0 ≡ ok tt
      → items (client.lpush queue_name x w).1 ≡ x ∷ items w
  pub lpush_err :
      (x : Text) (w : W) {e : Error}
      → (client.lpush queue_name x w).0 ≡ err e
      → (items (client.lpush queue_name x w).1 ≡ items w)
        ⊎ (items (client.lpush queue_name x w).1 ≡ x ∷ items w)
  pub brpop_ok :
      (w : W) {result : List Text}
      → (client.brpop queue_name w).0 ≡ ok result
      → (x : Text) × (result ≡ queue_name ∷ x ∷ [])
        × (items w ≡ items (client.brpop queue_name w).1 ++ x ∷ [])

module _ {W : Type 0} (client : Client W) (queue_name : Text) where
  -- An ID that is not valid is refused with ErrInvalidID and without a call of Redis; one that Redis
  -- refuses is reported as an unavailable queue; otherwise Enqueue succeeds, after one LPUSH.
  pub enqueue_cases :
      (id : Text) (w : W)
      → ((Id.is_valid id ≡ false)
          × ((enqueue client queue_name id w).1 ≡ w)
          × FailsAs invalid_id (enqueue client queue_name id w).0)
        ⊎ ((Id.is_valid id ≡ true)
            × ((enqueue client queue_name id w).1 ≡ (client.lpush queue_name id w).1)
            × (((enqueue client queue_name id w).0 ≡ ok tt)
                ⊎ FailsAs job_queue_unavailable (enqueue client queue_name id w).0))
  unfolding enqueue is
  enqueue_cases id w = elim (Bool-cases (Id.is_valid id)) [
    | inl v ↦ elim (Result-cases (client.lpush queue_name id w).0) [
      | inl (u, h) ↦ inr (v, ground arith, inl (ground arith))
      | inr (e, h) ↦ inr (v, ground arith, inr (ground arith))
    ]
    | inr v ↦ inl (v, ground arith, ground arith)
  ]

  parse_response_lem :
      (x : Text) {id : Text}
      → parse_response client queue_name (queue_name ∷ x ∷ []) ≡ ok id
      → Id.is_valid x ≡ true
      → id ≡ x
  unfolding parse_response
  parse_response_lem x h v = ground (arith, parse_id-valid x v)

  module _ (laws : ClientLaws client queue_name) where
    open laws use {items}

    pub enqueue_ok :
        (id : Text) (w : W)
        → (enqueue client queue_name id w).0 ≡ ok tt
        → items (enqueue client queue_name id w).1 ≡ id ∷ items w
    unfolding enqueue
    enqueue_ok id w h = ground (arith, laws.lpush_ok id w)

    dequeue_popped :
        (w : W) {result : List Text}
        → (client.brpop queue_name w).0 ≡ ok result
        → dequeue client queue_name w
          ≡ (parse_response client queue_name result, (client.brpop queue_name w).1)
    unfolding dequeue
    dequeue_popped w h = ground arith

    dequeue_refused :
        (w : W) {e : Error}
        → (client.brpop queue_name w).0 ≡ err e
        → is_ok (dequeue client queue_name w).0 ≡ false
    unfolding dequeue
    dequeue_refused w h = ground arith

    pub dequeue_ok :
        (w : W) {id : Text}
        → All (λ s. Id.is_valid s ≡ true) (items w)
        → (dequeue client queue_name w).0 ≡ ok id
        → items w ≡ items (dequeue client queue_name w).1 ++ id ∷ []
    dequeue_ok w {id} valid h = elim (Result-cases (client.brpop queue_name w).0) [
      | inl (result, p) ↦
          let (x, form, popped) = laws.brpop_ok w p in
          let d = dequeue_popped w p in
          let parsed : parse_response client queue_name (queue_name ∷ x ∷ []) ≡ ok id = cc in
          let v : Id.is_valid x ≡ true =
            All-last (λ s. Id.is_valid s ≡ true) (items (client.brpop queue_name w).1) x
              (rw popped at valid) in
          let same : id ≡ x = parse_response_lem x parsed v in rw (d, same) popped
      | inr (e, p) ↦ let f = dequeue_refused w p in cc
    ]

    snoc_injective :
        (xs ys : List Text) (x y : Text) → xs ++ x ∷ [] ≡ ys ++ y ∷ [] → (xs ≡ ys) × (x ≡ y)
    snoc_injective [] [] x y h = (refl, cc)
    snoc_injective [] (b ∷ []) x y h = cc
    snoc_injective [] (b ∷ c ∷ ys) x y h = cc
    snoc_injective (a ∷ []) [] x y h = cc
    snoc_injective (a ∷ c ∷ xs) [] x y h = cc
    snoc_injective (a ∷ xs) (b ∷ ys) x y h =
        let tails : xs ++ x ∷ [] ≡ ys ++ y ∷ [] = cc in
        let (p, q) = snoc_injective xs ys x y tails in let heads : a ≡ b = cc in (cc, q)

    accepted :
        (id : Text) (w : W)
        → Id.is_valid id ≡ true
        → (client.lpush queue_name id w).0 ≡ ok tt
        → (enqueue client queue_name id w).0 ≡ ok tt
    unfolding enqueue
    accepted id w v h = ground arith

    parse_response-valid :
        (x : Text)
        → Id.is_valid x ≡ true
        → parse_response client queue_name (queue_name ∷ x ∷ []) ≡ ok x
    unfolding parse_response
    parse_response-valid x v = ground (arith, parse_id-valid x v)

    dequeue_returns :
        (w : W) {result : List Text}
        → All (λ s. Id.is_valid s ≡ true) (items w)
        → (client.brpop queue_name w).0 ≡ ok result
        → (x : Text) × ((dequeue client queue_name w).0 ≡ ok x)
    dequeue_returns w valid h =
        let (x, form, popped) = laws.brpop_ok w h in
        let v : Id.is_valid x ≡ true =
          All-last (λ s. Id.is_valid s ≡ true) (items (client.brpop queue_name w).1) x
            (rw popped at valid) in
        let parsed = parse_response-valid x v in (x, rw (dequeue_popped w h, form, parsed) refl)

    -- The queue is first in, first out: if valid IDs are queued, `oldest` longest, and Redis carries
    -- out an LPUSH of another valid one and then a BRPOP, Enqueue succeeds, and Dequeue returns
    -- `oldest` and leaves the others in their order, behind which the new one stands.
    pub first_in_first_out :
        (w : W) (id oldest : Text) (others : List Text) {result : List Text}
        → items w ≡ others ++ oldest ∷ []
        → All (λ s. Id.is_valid s ≡ true) (id ∷ items w)
        → (client.lpush queue_name id w).0 ≡ ok tt
        → (client.brpop queue_name (enqueue client queue_name id w).1).0 ≡ ok result
        → ((enqueue client queue_name id w).0 ≡ ok tt)
          × ((dequeue client queue_name (enqueue client queue_name id w).1).0 ≡ ok oldest)
          × (items (dequeue client queue_name (enqueue client queue_name id w).1).1 ≡ id ∷ others)
    first_in_first_out w id oldest others queued valid pushed h =
        let w' : W = (enqueue client queue_name id w).1 in
        let enqueued = accepted id w valid.0 pushed in
        let now : items w' ≡ id ∷ items w = enqueue_ok id w enqueued in
        let (popped, returned) = dequeue_returns w' (rw now valid) h in
        let d = dequeue_ok w' (rw now valid) returned in
        let rest : List Text = items (dequeue client queue_name w').1 in
        let whole : rest ++ popped ∷ [] ≡ (id ∷ others) ++ oldest ∷ [] =
          sym d ∙ now ∙ ap (◌∷◌ id) queued in
        let (p, q) = snoc_injective rest (id ∷ others) popped oldest whole in
        (enqueued, returned ∙ ap ok q, p)
