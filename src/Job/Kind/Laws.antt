-- ===== src/Job/Kind/Laws.antt =====
-- A valid job type is one of the three constants, and parses to itself.
use async_job_poc.Base.{◌≡◌, refl, ◌⊎◌, inl, inr, true, arith}
use async_job_poc.Text.{Text, text_eq, trim_space, to_lower}
use async_job_poc.Text.Equality.{text_eq_iff}
use async_job_poc.Errors.{ok}
use async_job_poc.Job.Kind.{
  type_send_email, type_report_generation, type_data_cleanup, is_valid, parse_type,
}

pub is_valid-cases :
    (t : Text)
    → is_valid t ≡ true
    → (t ≡ type_send_email) ⊎ ((t ≡ type_report_generation) ⊎ (t ≡ type_data_cleanup))
unfolding is_valid
is_valid-cases t h = ground (
  arith,
  text_eq_iff t type_send_email,
  text_eq_iff t type_report_generation,
  text_eq_iff t type_data_cleanup,
)

parse_send_email : parse_type type_send_email ≡ ok type_send_email
unfolding parse_type is_valid type_send_email trim_space to_lower text_eq
parse_send_email = refl

parse_report_generation : parse_type type_report_generation ≡ ok type_report_generation
unfolding parse_type is_valid type_send_email type_report_generation trim_space to_lower text_eq
parse_report_generation = refl

parse_data_cleanup : parse_type type_data_cleanup ≡ ok type_data_cleanup
unfolding parse_type is_valid type_send_email type_report_generation type_data_cleanup trim_space
    to_lower text_eq
parse_data_cleanup = refl

-- A valid type parses to itself.
pub parse_type-valid : (t : Text) → is_valid t ≡ true → parse_type t ≡ ok t
parse_type-valid t h = elim (is_valid-cases t h) [
  | inl e ↦ rw e parse_send_email
  | inr (inl e) ↦ rw e parse_report_generation
  | inr (inr e) ↦ rw e parse_data_cleanup
]

-- What parses is valid.
pub parse_type-ok : (s : Text) {t : Text} → parse_type s ≡ ok t → is_valid t ≡ true
unfolding parse_type
parse_type-ok s h = ground arith
