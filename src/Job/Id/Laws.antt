-- ===== src/Job/Id/Laws.antt =====
-- Valid IDs are visible ASCII texts, so parsing leaves them as they are.
use async_job_poc.Base.{ℕ, ◌+◌, ◌≡◌, true, [], ◌∷◌, arith, All, and-true}
use async_job_poc.Text.{Text, trim_space}
use async_job_poc.Text.Trim.{Visible, trim_space-Visible}
use async_job_poc.Errors.{ok}
use async_job_poc.Job.Id.{is_id_byte, is_hexadecimal, are_id_bytes, is_valid, parse_id}

is_id_byte-Visible : (i c : ℕ) → is_id_byte i c ≡ true → Visible c
unfolding is_id_byte is_hexadecimal
is_id_byte-Visible i c h = ground arith

are_id_bytes-Visible : (i : ℕ) (s : Text) → are_id_bytes i s ≡ true → All Visible s
unfolding are_id_bytes
are_id_bytes-Visible i [] h = tt
are_id_bytes-Visible i (c ∷ s) h =
    let (p, q) = and-true (is_id_byte i c) (are_id_bytes (i + 1) s) h in
    (is_id_byte-Visible i c p, are_id_bytes-Visible (i + 1) s q)

is_valid-are_id_bytes : (s : Text) → is_valid s ≡ true → are_id_bytes 0 s ≡ true
unfolding is_valid
is_valid-are_id_bytes s h = ground arith

pub is_valid-Visible : (s : Text) → is_valid s ≡ true → All Visible s
is_valid-Visible s h = are_id_bytes-Visible 0 s (is_valid-are_id_bytes s h)

-- A valid ID parses to itself.
pub parse_id-valid : (s : Text) → is_valid s ≡ true → parse_id s ≡ ok s
unfolding parse_id
parse_id-valid s h = rw (trim_space-Visible s (is_valid-Visible s h), h)

-- What parses is the trimmed input, and it is valid.
pub parse_id-ok :
    (s : Text) {id : Text} → parse_id s ≡ ok id → (id ≡ trim_space s) × (is_valid id ≡ true)
unfolding parse_id
parse_id-ok s h = ground arith
