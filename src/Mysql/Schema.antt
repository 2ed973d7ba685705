-- ===== src/Mysql/Schema.antt =====
-- migrations/000001_create_jobs.up.sql: what the table asks of a row, its times aside (their range is
-- IsHeld of Mysql/Rows). Two tests are parameters: that on the payload, since JSON_TYPE and
-- JSON_LENGTH are MySQL's, and whether MySQL takes a text as one of utf8mb4. The texts of the other
-- columns are ASCII; their comparison is exact, where that of the table does not tell case apart.
pub mod Fitting
use async_job_poc.Base.{
  ℕ, ℤ, pos, Bool, true, false, ◌&&◌, ◌||◌, not, Option, none, some, length, leb, ltb_ℤ,
}
use async_job_poc.Text.{Text, bytes, text_eq}
use async_job_poc.Mysql.Record.{JobRecord}

-- CHAR(n) and VARCHAR(n), for a text of ASCII.
fits_char : ℕ → Text → Bool
fits_char n s = leb (length s) n

-- TINYINT UNSIGNED
fits_tinyint : ℤ → Bool
fits_tinyint (pos n) = leb n 255
fits_tinyint _ = false

-- TEXT NULL, in the character set utf8mb4
fits_text : (is_utf8mb4 : Text → Bool) → Option Text → Bool
fits_text is_utf8mb4 none = true
fits_text is_utf8mb4 (some s) = leb (length s) 65535 && is_utf8mb4 s

-- chk_jobs_type
check_type : Text → Bool
check_type t =
    text_eq t (bytes "send_email")
    || text_eq t (bytes "report_generation")
    || text_eq t (bytes "data_cleanup")

-- chk_jobs_status
check_status : Text → Bool
check_status s =
    text_eq s (bytes "pending")
    || text_eq s (bytes "processing")
    || text_eq s (bytes "success")
    || text_eq s (bytes "failed")

-- chk_jobs_max_retries and chk_jobs_retry_count
check_retries : (retry_count max_retries : ℤ) → Bool
check_retries retry_count max_retries =
    ltb_ℤ (pos 0) max_retries && not (ltb_ℤ max_retries retry_count)

-- The columns and the constraints of the table `jobs`.
unfoldable pub fits_schema : (is_utf8mb4 check_payload : Text → Bool) → JobRecord → Bool
unfolding fits_char fits_tinyint fits_text check_type check_status check_retries
fits_schema is_utf8mb4 check_payload row =
    fits_char 36 row.id
    && fits_char 50 row.job_type
    && fits_char 20 row.status
    && fits_tinyint row.retry_count
    && fits_tinyint row.max_retries
    && fits_text is_utf8mb4 row.last_error
    && check_type row.job_type
    && check_status row.status
    && check_payload row.payload
    && check_retries row.retry_count row.max_retries
