-- ===== src/Mysql/Rows.antt =====
-- What the proofs ask of GORM and MySQL: the table of jobs, and the three statements on it.
use async_job_poc.Base.{
  refl, String, Bool, ◌||◌, List, [], ◌∷◌, if◌then◌else◌, ◌≤◌, ◌<◌, ◌≡◌, ◌≢◌, ℕ, true, false,
  Option, none, some,
}
use async_job_poc.Text.{Text, bytes, text_eq}
use async_job_poc.Time.{Time, zero_instant}
use async_job_poc.Errors.{Error, ok, err, is, record_not_found, job_not_found}
use async_job_poc.Job.Payload.{Unmarshal, validate_payload}
use async_job_poc.Job.Entity.{Job}
use async_job_poc.UseCase.Ports.{round_pointer}
use async_job_poc.Mysql.Record.{JobRecord}
use async_job_poc.Mysql.Repository.{Database, selected_columns}

-- The columns of an entity.
abbrev pub record_of : Job → JobRecord
record_of j = record {
  id = j.id;
  job_type = j.job_type;
  status = j.status;
  payload = j.payload;
  retry_count = j.retry_count;
  max_retries = j.max_retries;
  last_error = j.last_error;
  created_at = j.created_at;
  updated_at = j.updated_at;
  started_at = j.started_at;
  completed_at = j.completed_at;
}

-- A row as the columns keep it, and a row after the columns that Update selects are written.
abbrev pub keep : (Time → Time) → (Text → Text) → JobRecord → JobRecord
keep round normalize r = record r {
  payload = normalize r.payload;
  created_at = round r.created_at;
  updated_at = round r.updated_at;
  started_at = round_pointer round r.started_at;
  completed_at = round_pointer round r.completed_at;
}

abbrev pub write_columns : (Time → Time) → JobRecord → JobRecord → JobRecord
write_columns round old r = record old {
  status = r.status;
  retry_count = r.retry_count;
  max_retries = r.max_retries;
  last_error = r.last_error;
  updated_at = round r.updated_at;
  started_at = round_pointer round r.started_at;
  completed_at = round_pointer round r.completed_at;
}

-- Whether a column is among those that are selected, and its value if it is or is not.
abbrev has : Text → List Text → Bool
has name [] = false
has name (column ∷ columns) = text_eq name column || has name columns

abbrev pick : {A : Type 0} → List Text → String → (old new : A) → A
pick columns name old new = if has (bytes name) columns then new else old

-- The row after Updates on the selected columns. GORM tracks the time of the update in the column
-- updated_at: it writes what NowFunc gives, whatever the record holds there.
unfoldable pub assign :
    (Time → Time) → (Text → Text) → List Text → (now : Time) → JobRecord → JobRecord → JobRecord
assign round normalize columns now old r = record {
  id = pick columns "id" old.id r.id;
  job_type = pick columns "type" old.job_type r.job_type;
  status = pick columns "status" old.status r.status;
  payload = pick columns "payload" old.payload (normalize r.payload);
  retry_count = pick columns "retry_count" old.retry_count r.retry_count;
  max_retries = pick columns "max_retries" old.max_retries r.max_retries;
  last_error = pick columns "last_error" old.last_error r.last_error;
  created_at = pick columns "created_at" old.created_at (round r.created_at);
  updated_at = round now;
  started_at = pick columns "started_at" old.started_at (round_pointer round r.started_at);
  completed_at = pick columns "completed_at" old.completed_at (round_pointer round r.completed_at);
}

-- On the columns that the repository selects.
pub assign-selected :
    (round : Time → Time) (normalize : Text → Text) (now : Time) (old r : JobRecord)
    → assign round normalize selected_columns now old r
      ≡ write_columns round old (record r { updated_at = now })
unfolding assign text_eq
assign-selected round normalize now old r = refl

-- A time in the range that a column of times supports, from the year 1000 on, is after the zero time,
-- as the column keeps it.
abbrev pub IsHeld : (Time → Time) → Time → Type 0
IsHeld round t = zero_instant < (round t).instant

abbrev pub IsHeld? : (Time → Time) → Option Time → Type 0
IsHeld? round none = Unit {0}
IsHeld? round (some t) = IsHeld round t

abbrev pub IsAfterZero : Option Time → Type 0
IsAfterZero none = Unit {0}
IsAfterZero (some t) = zero_instant < t.instant

-- The statements of an insert and of a lookup on a table with one row for an ID at most, while no other process writes. A
-- column of times rounds them, in order, and gives them back in UTC; the column of payloads may
-- normalise a JSON object; no error of GORM is one of the application.
pub record DatabaseLaws {W : Type 0} (unmarshal : Unmarshal) (db : Database W) : Type 0 where
  pub rows : W → Text → Option JobRecord
  pub round : Time → Time
  pub normalize : Text → Text
  pub round_utc : (t : Time) → (round t).location ≡ 0
  pub round_ordered : (t u : Time) → t.instant ≤ u.instant → (round t).instant ≤ (round u).instant
  pub normalize_valid :
      (s : Text)
      → validate_payload unmarshal s ≡ none
      → validate_payload unmarshal (normalize s) ≡ none
  pub insert_ok :
      (r : JobRecord) (w : W)
      → (db.insert r w).0 ≡ ok tt
      → (rows w r.id ≡ none)
        × (rows (db.insert r w).1 r.id ≡ some (keep round normalize r))
        × IsHeld round r.created_at
        × IsHeld round r.updated_at
        × IsHeld? round r.started_at
        × IsHeld? round r.completed_at
  pub first_ok : (id : Text) (w : W) {r : JobRecord} → (db.first id w).0 ≡ ok r → rows w id ≡ some r
  pub first_missing :
      (id : Text) (w : W) {e : Error}
      → (db.first id w).0 ≡ err e
      → is e record_not_found ≡ true
      → rows w id ≡ none
  pub first_error :
      (id : Text) (w : W) {e : Error} → (db.first id w).0 ≡ err e → is e job_not_found ≡ false

-- The statement of an update, likewise: a row of the table holds no time out of range.
pub record UpdateLaws {W : Type 0} (unmarshal : Unmarshal) (db : Database W)
    (laws : DatabaseLaws unmarshal db) : Type 0 where
  pub updates_ok :
      (id : Text) (columns : List Text) (r old : JobRecord) (w : W) {affected : ℕ}
      → (db.updates id columns r w).0 ≡ ok affected
      → affected ≢ 0
      → laws.rows w id ≡ some old
      → let row = assign laws.round laws.normalize columns (db.now_func w) old r in
        (laws.rows (db.updates id columns r w).1 id ≡ some row)
        × (zero_instant < row.updated_at.instant)
        × IsAfterZero row.started_at
        × IsAfterZero row.completed_at
