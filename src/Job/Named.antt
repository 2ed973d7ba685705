-- ===== src/Job/Named.antt =====
-- The IDs, types and statuses that internal/domain/job/id.go, type.go and status.go allow, said
-- without their tests.
use async_job_poc.Base.{
  ℕ, ◌+◌, ◌≤◌, ◌≡◌, ◌↔◌, ◌⊎◌, inl, inr, true, Bool-cases, refl, [], ◌∷◌, length, and-true, arith,
}
use async_job_poc.Text.{Text, bytes}
use async_job_poc.Text.Equality.{text_eq_iff}
use async_job_poc.Job.Id
use async_job_poc.Job.Id.{is_hexadecimal, is_dash_index, is_id_byte, are_id_bytes}
use async_job_poc.Job.Kind
use async_job_poc.Job.Kind.{type_send_email, type_report_generation, type_data_cleanup}
use async_job_poc.Job.Status
use async_job_poc.Job.Status.{status_pending, status_processing, status_success, status_failed}

abbrev pub IsHexadecimal : ℕ → Type 0
IsHexadecimal c =
    ((b'0' ≤ c) × (c ≤ b'9')) ⊎ (((b'a' ≤ c) × (c ≤ b'f')) ⊎ ((b'A' ≤ c) × (c ≤ b'F')))

abbrev pub IsDashIndex : ℕ → Type 0
IsDashIndex i = (i ≡ 8) ⊎ ((i ≡ 13) ⊎ ((i ≡ 18) ⊎ (i ≡ 23)))

-- A dash at the four places of a UUID, a hexadecimal digit at any other, from a position on.
abbrev pub AreIdBytes : ℕ → Text → Type 0
AreIdBytes i [] = Unit {0}
AreIdBytes i (c ∷ s) =
    ((IsDashIndex i × (c ≡ b'-')) ⊎ ((¬ IsDashIndex i) × IsHexadecimal c)) × AreIdBytes (i + 1) s

-- The form of a UUID.
abbrev pub IsUuid : Text → Type 0
IsUuid s = (length s ≡ 36) × AreIdBytes 0 s

abbrev pub IsType : Text → Type 0
IsType t = (t ≡ bytes "send_email") ⊎ ((t ≡ bytes "report_generation") ⊎ (t ≡ bytes "data_cleanup"))

abbrev pub IsStatus : Text → Type 0
IsStatus s =
    (s ≡ bytes "pending")
    ⊎ ((s ≡ bytes "processing") ⊎ ((s ≡ bytes "success") ⊎ (s ≡ bytes "failed")))

is_dash_index_iff : (i : ℕ) → (is_dash_index i ≡ true) ↔ IsDashIndex i
unfolding is_dash_index
is_dash_index_iff i = (ground arith, ground arith)

is_hexadecimal_iff : (c : ℕ) → (is_hexadecimal c ≡ true) ↔ IsHexadecimal c
unfolding is_hexadecimal
is_hexadecimal_iff c = (ground arith, ground arith)

is_id_byte_iff :
    (i c : ℕ)
    → (is_id_byte i c ≡ true)
      ↔ ((IsDashIndex i × (c ≡ b'-')) ⊎ ((¬ IsDashIndex i) × IsHexadecimal c))
unfolding is_id_byte
is_id_byte_iff i c =
    let (dash, of_dash) = is_dash_index_iff i in
    let (digit, of_digit) = is_hexadecimal_iff c in
    elim (Bool-cases (is_dash_index i)) [
      | inl d ↦ (
        λ h. inl (dash d, ground arith),
        λ h. elim h [ inl (_, e) ↦ ground arith | inr (n, _) ↦ absurd (n (dash d)) ],
      )
      | inr d ↦ (
        λ h. inr (λ e. cc (of_dash e), digit (ground arith)),
        λ h. elim h [
          | inl (e, _) ↦ absurd (let t = of_dash e in cc)
          | inr (_, x) ↦ let t = of_digit x in ground arith
        ],
      )
    ]

are_id_bytes_iff : (i : ℕ) (s : Text) → (are_id_bytes i s ≡ true) ↔ AreIdBytes i s
unfolding are_id_bytes
are_id_bytes_iff i [] = (λ h. tt, λ h. refl)
are_id_bytes_iff i (c ∷ s) =
    let (here, of_here) = is_id_byte_iff i c in
    let (there, of_there) = are_id_bytes_iff (i + 1) s in
    (
      λ h. let (p, q) = and-true _ _ h in (here p, there q),
      λ h. rw (of_here h.0, of_there h.1) refl,
    )

pub IsUuid-iff : (s : Text) → (Id.is_valid s ≡ true) ↔ IsUuid s
unfolding Id.is_valid
IsUuid-iff s =
    let (form, of_form) = are_id_bytes_iff 0 s in
    (λ h. (ground arith, form (ground arith)), λ (n, f). let t = of_form f in ground arith)

pub IsType-iff : (t : Text) → (Kind.is_valid t ≡ true) ↔ IsType t
unfolding Kind.is_valid type_send_email type_report_generation type_data_cleanup
IsType-iff t = ground (
  arith,
  text_eq_iff t (bytes "send_email"),
  text_eq_iff t (bytes "report_generation"),
  text_eq_iff t (bytes "data_cleanup"),
)

pub IsStatus-iff : (s : Text) → (Status.is_valid s ≡ true) ↔ IsStatus s
unfolding Status.is_valid status_pending status_processing status_success status_failed
IsStatus-iff s = ground (
  arith,
  text_eq_iff s (bytes "pending"),
  text_eq_iff s (bytes "processing"),
  text_eq_iff s (bytes "success"),
  text_eq_iff s (bytes "failed"),
)
