-- ===== src/Tests/Tables.antt =====
-- The MySQL repository over a table in memory.
use async_job_poc.Base.{
  List, ◌<◌, ℕ, ◌≡◌, ◌≢◌, refl, Bool, true, false, ◌&&◌, ltb, Option, none, some, arith,
  if◌then◌else◌,
}
use async_job_poc.Text.{Text, bytes, text_eq}
use async_job_poc.Text.Equality.{text_eq_refl}
use async_job_poc.Time.{Time, zero_instant, utc}
use async_job_poc.Errors.{
  Error, ok, err, is, sentinel, foreign, duplicated_key, record_not_found, job_not_found,
}
use async_job_poc.Job.Entity.{Job}
use async_job_poc.Job.Lifecycle.{mark_processing}
use async_job_poc.Job.Status.{status_pending, status_processing}
use async_job_poc.Job.Valid.{IsValid, new-IsValid, mark_processing-IsValid}
use async_job_poc.UseCase.Action.{Action}
use async_job_poc.UseCase.Ports.{overwrite, row_of}
use async_job_poc.Mysql.Record.{JobRecord, job_record_from_domain}
use async_job_poc.Mysql.Rows.{
  record_of, keep, IsHeld, IsHeld?, IsAfterZero, assign, DatabaseLaws, UpdateLaws,
}
use async_job_poc.Mysql.Repository.{Database, create, update}
use async_job_poc.Mysql.Contract.{IsReadAs, get_by_id-create, get_by_id-update}
use async_job_poc.Tests.World.{an_id, at}
use async_job_poc.Tests.Jobs.{one_entry, params, pending_job, new-pending_job}

abbrev pub Table : Type 0
Table = Text → Option JobRecord

abbrev pub set_row : Text → JobRecord → Table → Table
set_row id r table o = if text_eq o id then some r else table o

abbrev pub is_held : Time → Bool
is_held t = ltb zero_instant t.instant

abbrev pub is_held? : Option Time → Bool
is_held? none = true
is_held? (some t) = is_held t

abbrev pub insert_in : Option JobRecord → JobRecord → Action Table (Unit {0})
insert_in (some old) r table = (err (sentinel duplicated_key), table)
insert_in none r table =
    if is_held r.created_at
      && is_held r.updated_at
      && is_held? r.started_at
      && is_held? r.completed_at
    then (ok tt, set_row r.id (keep utc (λ s. s) r) table)
    else (err (foreign (bytes "incorrect datetime value")), table)

abbrev pub first_in : Option JobRecord → Action Table JobRecord
first_in none table = (err (sentinel record_not_found), table)
first_in (some r) table = (ok r, table)

-- GORM's clock, which stands still.
abbrev stamp : Time
stamp = at 7

abbrev pub updates_in : Option JobRecord → Text → List Text → JobRecord → Action Table ℕ
updates_in none id columns r table = (ok 0, table)
updates_in (some old) id columns r table =
    let row = assign utc (λ s. s) columns stamp old r in
    if is_held row.updated_at && is_held? row.started_at && is_held? row.completed_at
    then (ok 1, set_row id row table)
    else (err (foreign (bytes "incorrect datetime value")), table)

abbrev pub database : Database Table
database = record {
  insert = λ r table. insert_in (table r.id) r table;
  first = λ id table. first_in (table id) table;
  updates = λ id columns r table. updates_in (table id) id columns r table;
  now_func = λ table. stamp;
}

held? : (o : Option Time) → is_held? o ≡ true → IsHeld? utc o
held? none h = tt
held? (some t) h = ground arith

pub insert_lem :
    (r : JobRecord) (table : Table)
    → (database.insert r table).0 ≡ ok tt
    → (table r.id ≡ none)
      × ((database.insert r table).1 r.id ≡ some (keep utc (λ s. s) r))
      × IsHeld utc r.created_at
      × IsHeld utc r.updated_at
      × IsHeld? utc r.started_at
      × IsHeld? utc r.completed_at
insert_lem r table h =
    let same = text_eq_refl r.id in
    (
      ground arith,
      ground arith,
      ground arith,
      ground arith,
      held? r.started_at (ground arith),
      held? r.completed_at (ground arith),
    )

after_zero? : (o : Option Time) → is_held? o ≡ true → IsAfterZero o
after_zero? none h = tt
after_zero? (some t) h = ground arith

pub updates_lem :
    (id : Text) (columns : List Text) (r old : JobRecord) (table : Table) {affected : ℕ}
    → (database.updates id columns r table).0 ≡ ok affected
    → affected ≢ 0
    → table id ≡ some old
    → let row = assign utc (λ s. s) columns stamp old r in
      ((database.updates id columns r table).1 id ≡ some row)
      × (zero_instant < row.updated_at.instant)
      × IsAfterZero row.started_at
      × IsAfterZero row.completed_at
updates_lem id columns r old table h n e =
    let same = text_eq_refl id in
    (
      ground arith,
      ground arith,
      after_zero? (assign utc (λ s. s) columns stamp old r).started_at (ground arith),
      after_zero? (assign utc (λ s. s) columns stamp old r).completed_at (ground arith),
    )

pub first_error_lem :
    (o : Option JobRecord) (table : Table) {e : Error}
    → (first_in o table).0 ≡ err e
    → is e job_not_found ≡ false
unfolding is
first_error_lem none table h = ground arith
first_error_lem (some r) table h = cc

pub first_missing_lem :
    (o : Option JobRecord) (table : Table) {e : Error} → (first_in o table).0 ≡ err e → o ≡ none
first_missing_lem none table h = refl
first_missing_lem (some r) table h = cc

pub first_lem :
    (o : Option JobRecord) (table : Table) {r : JobRecord}
    → (first_in o table).0 ≡ ok r
    → o ≡ some r
first_lem none table h = cc
first_lem (some r) table h = cc

abbrev database_laws : DatabaseLaws one_entry database
database_laws = record {
  rows = λ table. table;
  round = utc;
  normalize = λ s. s;
  round_utc = λ t. refl;
  round_ordered = λ t u h. h;
  normalize_valid = λ s h. h;
  insert_ok = insert_lem;
  first_ok = λ id table h. first_lem (table id) table h;
  first_missing = λ id table h k. first_missing_lem (table id) table h;
  first_error = λ id table h. first_error_lem (table id) table h;
}

abbrev update_laws : UpdateLaws one_entry database database_laws
update_laws = record {
  updates_ok = λ id columns r old table h n e. updates_lem id columns r old table h n e;
}

abbrev pub no_rows : Table
no_rows id = none

valid : IsValid one_entry pending_job
valid = new-IsValid one_entry params new-pending_job

creates : (create one_entry database (some pending_job) no_rows).0 ≡ ok tt
unfolding create job_record_from_domain
creates = refl

get_by_id-create_example :
    (no_rows an_id ≡ none)
    × IsReadAs one_entry database database_laws an_id
        (row_of utc (λ s. s) pending_job)
        (create one_entry database (some pending_job) no_rows).1
get_by_id-create_example =
    get_by_id-create one_entry database database_laws pending_job no_rows valid creates

abbrev one_row : Table
one_row = set_row an_id (record_of pending_job) no_rows

abbrev next_job : Job
next_job = (mark_processing (at 2) pending_job).1

updates : (update one_entry database (some next_job) one_row).0 ≡ ok tt
unfolding update job_record_from_domain mark_processing status_pending status_processing text_eq
    assign
updates = refl

get_by_id-update_example :
    IsReadAs one_entry database database_laws next_job.id
      (overwrite utc pending_job (record next_job { updated_at = at 7 }))
      (update one_entry database (some next_job) one_row).1
unfolding mark_processing status_pending status_processing text_eq
get_by_id-update_example =
    get_by_id-update one_entry database database_laws update_laws pending_job next_job one_row valid
      (mark_processing-IsValid one_entry (at 2) pending_job valid) refl (omega arith) refl updates
