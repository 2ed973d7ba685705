-- ===== src/Mysql/Repository.antt =====
-- internal/adapters/mysql/job_repository.go. GORM and MySQL are a parameter: the three statements
-- that the repository runs.
use async_job_poc.Base.{ℕ, Bool, Option, some, List, [], ◌∷◌, ◌==◌, if◌then◌else◌}
use async_job_poc.Text.{Text, bytes}
use async_job_poc.Time.{Time}
use async_job_poc.Errors.{
  Error, sentinel, foreign, Result, ensure, wrap, text, quoted, invalid_id, job_not_found,
  job_already_exists, duplicated_key, record_not_found, is,
}
use async_job_poc.Job.Id
use async_job_poc.Job.Payload.{Unmarshal}
use async_job_poc.Job.Entity.{Job}
use async_job_poc.UseCase.Action.{Action, pure, fail, or_fail, ◌>>=◌, prefix}
use async_job_poc.UseCase.Ports.{JobRepository}
use async_job_poc.Mysql.Record.{JobRecord, job_record_from_domain, job_record_to_domain}

pub record Database (W : Type 0) : Type 0 where
  -- db.Create(&record)
  pub insert : JobRecord → Action W (Unit {0})
  -- db.Where("id = ?", id).First(&record)
  pub first : Text → Action W JobRecord
  -- db.Model(&jobRecord{}).Where("id = ?", id).Select(columns).Updates(&record), with RowsAffected
  pub updates : Text → (columns : List Text) → JobRecord → Action W ℕ
  -- The time that NowFunc of the configuration gives.
  pub now_func : W → Time

-- The columns that Update selects.
abbrev pub selected_columns : List Text
selected_columns =
    bytes "status"
    ∷ bytes "retry_count"
    ∷ bytes "max_retries"
    ∷ bytes "last_error"
    ∷ bytes "updated_at"
    ∷ bytes "started_at"
    ∷ bytes "completed_at"
    ∷ []

-- NewJobRepository, for whether the database is there.
unfoldable pub new_job_repository : Bool → Result (Unit {0})
new_job_repository has_db = ensure has_db (foreign (bytes "GORM database must not be nil"))

module _ {W : Type 0} (unmarshal : Unmarshal) (db : Database W) where
  create_error : Text → Error → Error
  create_error id e =
      if is e duplicated_key
      then wrap [] (sentinel job_already_exists) (text (bytes ": ") ∷ text id ∷ [])
      else prefix (text (bytes "create job ") ∷ text id ∷ text (bytes ": ") ∷ []) e

  -- JobRepository.Create
  unfoldable pub create : Option Job → Action W (Unit {0})
  unfolding create_error
  create entity = do
    row ←
        or_fail (prefix (text (bytes "map job for creation: ") ∷ []))
          (λ w. (job_record_from_domain entity, w))
    or_fail (create_error row.id) (db.insert row)

  get_error : Text → Error → Error
  get_error id e =
      if is e record_not_found
      then wrap [] (sentinel job_not_found) (text (bytes ": ") ∷ text id ∷ [])
      else prefix (text (bytes "get job ") ∷ text id ∷ text (bytes ": ") ∷ []) e

  -- GetByID on a valid ID.
  find : Text → Action W Job
  unfolding get_error
  find id = do
    row ← or_fail (get_error id) (db.first id)
    or_fail (prefix (text (bytes "map job ") ∷ text id ∷ text (bytes " from persistence: ") ∷ []))
        (λ w. (job_record_to_domain unmarshal row, w))

  -- JobRepository.GetByID
  unfoldable pub get_by_id : Text → Action W Job
  unfolding find
  get_by_id id =
      if Id.is_valid id
      then find id
      else fail (wrap [] (sentinel invalid_id) (text (bytes ": ") ∷ quoted id ∷ []))

  check_affected : Text → ℕ → Action W (Unit {0})
  check_affected id affected =
      if affected == 0
      then fail (wrap [] (sentinel job_not_found) (text (bytes ": ") ∷ text id ∷ []))
      else pure tt

  -- JobRepository.Update
  unfoldable pub update : Option Job → Action W (Unit {0})
  unfolding check_affected
  update entity = do
    row ←
        or_fail (prefix (text (bytes "map job for update: ") ∷ []))
          (λ w. (job_record_from_domain entity, w))
    affected ←
        or_fail (prefix (text (bytes "update job ") ∷ text row.id ∷ text (bytes ": ") ∷ []))
          (db.updates row.id selected_columns row)
    check_affected row.id affected

  -- The repository as the port of the use cases, which never hand it a nil job.
  abbrev pub repository : JobRepository W
  repository = record {
    create = λ j. create (some j);
    get_by_id = get_by_id;
    update = λ j. update (some j);
  }
