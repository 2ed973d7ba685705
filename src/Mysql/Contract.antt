-- ===== src/Mysql/Contract.antt =====
-- The repository of internal/adapters/mysql/job_repository.go over a database that keeps rows: what
-- it stores, a later lookup returns.
use mathlib.Core.Path.{subst}
use async_job_poc.Base.{
  ◌<◌, ◌≤◌, ◌≡◌, ◌≢◌, sym, ◌⊎◌, inl, inr, ℕ, true, false, Option, none, some, [], ◌∷◌, arith,
  Bool-cases,
}
use async_job_poc.Text.{Text, bytes}
use async_job_poc.Time.{Time, zero_instant}
use async_job_poc.Errors.{Error, ok, err, is, record_not_found, job_not_found, Result-cases, text}
use async_job_poc.Job.Id
use async_job_poc.Job.Payload.{Unmarshal}
use async_job_poc.Job.Entity.{Job}
use async_job_poc.Job.Valid.{IsValid, IsRecorded, IsRecorded?}
use async_job_poc.UseCase.Action.{prefix}
use async_job_poc.UseCase.Ports.{overwrite, row_of, round_pointer}
use async_job_poc.Mysql.Record.{JobRecord, job_record_from_domain, job_record_to_domain}
use async_job_poc.Mysql.RoundTrip.{to_domain-from_domain}
use async_job_poc.Mysql.Repository.{Database, selected_columns, create, get_by_id, update}
use async_job_poc.Mysql.Rows.{
  record_of, IsHeld, IsHeld?, IsAfterZero, assign-selected, DatabaseLaws, UpdateLaws,
}

module _ {W : Type 0} (unmarshal : Unmarshal) (db : Database W)
    (laws : DatabaseLaws unmarshal db) where
  open laws use {rows, round, normalize}

  -- The entity that a lookup returns; or the query failed, and the error is not ErrJobNotFound.
  abbrev pub IsReadAs : Text → Job → W → Type 0
  IsReadAs id j w =
      ((get_by_id unmarshal db id w).0 ≡ ok j)
      ⊎ ((e f : Error) × ((db.first id w).0 ≡ err e)
          × ((get_by_id unmarshal db id w).0 ≡ err f)
          × (is f job_not_found ≡ false))

  to_domain : (j : Job) → IsValid unmarshal j → job_record_to_domain unmarshal (record_of j) ≡ ok j
  unfolding job_record_from_domain
  to_domain j v = to_domain-from_domain unmarshal j v

  found :
      (id : Text) (w : W) {r : JobRecord} {j : Job}
      → Id.is_valid id ≡ true
      → (db.first id w).0 ≡ ok r
      → job_record_to_domain unmarshal r ≡ ok j
      → (get_by_id unmarshal db id w).0 ≡ ok j
  unfolding get_by_id
  found id w v f d = ground arith

  failed :
      (id : Text) (w : W) {e : Error}
      → Id.is_valid id ≡ true
      → (db.first id w).0 ≡ err e
      → is e record_not_found ≡ false
      → (get_by_id unmarshal db id w).0
        ≡ err (prefix (text (bytes "get job ") ∷ text id ∷ text (bytes ": ") ∷ []) e)
  unfolding get_by_id
  failed id w v f n = ground arith

  -- A row that stands for a valid entity is read as that entity.
  read_back :
      (j : Job) (w : W) → IsValid unmarshal j → rows w j.id ≡ some (record_of j) → IsReadAs j.id j w
  unfolding is
  read_back j w v h = elim (Result-cases (db.first j.id w).0) [
    | inl (r, f) ↦
        let kept = laws.first_ok j.id w f in
        let same : r ≡ record_of j = cc in inl (found j.id w v.id f (rw same (to_domain j v)))
    | inr (e, f) ↦ elim (Bool-cases (is e record_not_found)) [
      | inl n ↦ let none_kept = laws.first_missing j.id w f n in absurd (no_row h none_kept)
      | inr n ↦ inr (e, _, f, failed j.id w v.id f n, laws.first_error j.id w f)
    ]
  ]
    where
      no_row : {A : Type 0} {o : Option A} {a : A} → o ≡ some a → o ≡ none → ⊥
      no_row p q = cc

  recorded : (t : Time) → IsHeld round t → IsRecorded (round t)
  recorded t h = (laws.round_utc t, omega arith)

  recorded? : (o : Option Time) → IsHeld? round o → IsRecorded? (round_pointer round o)
  recorded? none h = tt
  recorded? (some t) h = recorded t h

  row-IsValid :
      (j : Job)
      → IsValid unmarshal j
      → IsHeld round j.created_at
      → IsHeld round j.updated_at
      → IsHeld? round j.started_at
      → IsHeld? round j.completed_at
      → IsValid unmarshal (row_of round normalize j)
  row-IsValid j v c u s d = record {
    id = v.id;
    kind = v.kind;
    status = v.status;
    payload = laws.normalize_valid j.payload v.payload;
    retries = v.retries;
    created = recorded j.created_at c;
    updated = recorded j.updated_at u;
    ordered = laws.round_ordered j.created_at j.updated_at v.ordered;
    started = recorded? j.started_at s;
    completed = recorded? j.completed_at d;
  }

  after_zero : (o : Option Time) → IsAfterZero (round_pointer round o) → IsHeld? round o
  after_zero none h = tt
  after_zero (some t) h = h

  -- The entity that is stored, updated by one that is valid, at a time that is not before its creation.
  overwrite-IsValid :
      (k j : Job) (t : Time)
      → IsValid unmarshal k
      → IsValid unmarshal j
      → k.created_at.instant ≤ (round t).instant
      → IsHeld round t
      → IsHeld? round j.started_at
      → IsHeld? round j.completed_at
      → IsValid unmarshal (overwrite round k (record j { updated_at = t }))
  overwrite-IsValid k j t v v' o u s d = record {
    id = v.id;
    kind = v.kind;
    status = v'.status;
    payload = v.payload;
    retries = v'.retries;
    created = v.created;
    updated = recorded t u;
    ordered = o;
    started = recorded? j.started_at s;
    completed = recorded? j.completed_at d;
  }

  inserted :
      (j : Job) (w : W)
      → (create unmarshal db (some j) w).0 ≡ ok tt
      → ((db.insert (record_of j) w).0 ≡ ok tt)
        × ((create unmarshal db (some j) w).1 ≡ (db.insert (record_of j) w).1)
  unfolding create job_record_from_domain
  inserted j w h = ground arith

  updated :
      (j : Job) (w : W)
      → (update unmarshal db (some j) w).0 ≡ ok tt
      → (affected : ℕ) × ((db.updates j.id selected_columns (record_of j) w).0 ≡ ok affected)
        × (affected ≢ 0)
        × ((update unmarshal db (some j) w).1
            ≡ (db.updates j.id selected_columns (record_of j) w).1)
  unfolding update job_record_from_domain
  updated j w h = elim (Result-cases (db.updates j.id selected_columns (record_of j) w).0) [
    | inr (e, f) ↦ absurd (ground arith)
    | inl (n, f) ↦ (n, f, ground arith, ground arith)
  ]

  -- If Create succeeds for a valid entity, there was no row of its ID, and GetByID then returns the
  -- entity, with its times as the columns keep them and its payload normalised; or the query of
  -- GetByID fails, and its error is not ErrJobNotFound.
  pub get_by_id-create :
      (j : Job) (w : W)
      → IsValid unmarshal j
      → (create unmarshal db (some j) w).0 ≡ ok tt
      → (rows w j.id ≡ none)
        × IsReadAs j.id (row_of round normalize j) (create unmarshal db (some j) w).1
  get_by_id-create j w v h =
      let (sent, world) = inserted j w h in
      let (absent, row, c, u, s, d) = laws.insert_ok (record_of j) w sent in
      (
        absent,
        rw world (
            read_back (row_of round normalize j) (db.insert (record_of j) w).1
              (row-IsValid j v c u s d) row),
      )

  -- If the row of the valid entity `k` is there and Update succeeds for a valid entity `j` of the same
  -- ID, when GORM's clock is not before the creation of `k`, then GetByID returns `k` with the status,
  -- the counters, the last error, the start and the completion of `j`, and with the time of GORM's
  -- clock as its time of update, not that of `j`; or its query fails, and its error is not
  -- ErrJobNotFound.
  pub get_by_id-update :
      UpdateLaws unmarshal db laws
      → (k j : Job) (w : W) → IsValid unmarshal k
      → IsValid unmarshal j
      → k.id ≡ j.id
      → k.created_at.instant ≤ (round (db.now_func w)).instant
      → rows w j.id ≡ some (record_of k)
      → (update unmarshal db (some j) w).0 ≡ ok tt
      → IsReadAs j.id
          (overwrite round k (record j { updated_at = db.now_func w }))
          (update unmarshal db (some j) w).1
  get_by_id-update writes k j w v v' same o old h =
      let now = db.now_func w in
      let stamped : Job = record j { updated_at = now } in
      let (affected, sent, some_row, world) = updated j w h in
      let selected = assign-selected round normalize now (record_of k) (record_of j) in
      let w' : W = (db.updates j.id selected_columns (record_of j) w).1 in
      let (row, u, s, d) =
        subst
          (λ x.
            (rows w' j.id ≡ some x)
            × (zero_instant < x.updated_at.instant)
            × IsAfterZero x.started_at
            × IsAfterZero x.completed_at)
          selected
          (writes.updates_ok j.id selected_columns (record_of j) (record_of k) w sent some_row
            old) in
      let valid =
        overwrite-IsValid k j now v v' o u (after_zero j.started_at s)
          (after_zero j.completed_at d) in
      let kept =
        subst (λ i. rows w' i ≡ some (record_of (overwrite round k stamped))) (sym same) row in
      let back = read_back (overwrite round k stamped) w' valid kept in
      rw world (subst (λ i. IsReadAs i (overwrite round k stamped) w') same back)
