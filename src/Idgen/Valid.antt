-- ===== src/Idgen/Valid.antt =====
-- The IDs of internal/platform/idgen/uuid.go against IsValid of internal/domain/job/id.go.
use async_job_poc.Base.{
  ℕ, zero, suc, ◌+◌, ◌/◌, ◌%◌, ◌<◌, ◌≤◌, ◌≡◌, refl, ◌∙◌, ◌⊎◌, inl, inr, Bool, true, false, ◌&&◌,
  List, [], ◌∷◌, ◌++◌, arith, length, ◌==◌, ==_iff, All, not, and-true,
}
use native.Mathlib.Decide.{dec_lt}
use mathlib.Core.List.{append_assoc, append-nil}
use async_job_poc.Text.{Text}
use async_job_poc.Errors.{ok}
use async_job_poc.Job.Id.{is_valid, are_id_bytes, is_id_byte, is_hexadecimal, is_dash_index}
use async_job_poc.Job.Id.Laws.{parse_id-valid}
use async_job_poc.Idgen.{
  Bytes, hex_digit, hex, hex_all, slice_0_4, slice_4_6, slice_6_8, slice_8_10, slice_10_16,
  version_byte, variant_byte, raw_id, new_id,
}

pub record AreBytes (v : Bytes) : Type 0 where
  pub b0_lt : v.b0 < 256
  pub b1_lt : v.b1 < 256
  pub b2_lt : v.b2 < 256
  pub b3_lt : v.b3 < 256
  pub b4_lt : v.b4 < 256
  pub b5_lt : v.b5 < 256
  pub b6_lt : v.b6 < 256
  pub b7_lt : v.b7 < 256
  pub b8_lt : v.b8 < 256
  pub b9_lt : v.b9 < 256
  pub b10_lt : v.b10 < 256
  pub b11_lt : v.b11 < 256
  pub b12_lt : v.b12 < 256
  pub b13_lt : v.b13 < 256
  pub b14_lt : v.b14 < 256
  pub b15_lt : v.b15 < 256

hex_digit-is_hexadecimal : (d : ℕ) → d < 16 → is_hexadecimal (hex_digit d) ≡ true
unfolding is_hexadecimal hex_digit
hex_digit-is_hexadecimal d h = ground arith

hex_step :
    (i b : ℕ) (s : Text)
    → b < 256
    → is_dash_index i ≡ false
    → is_dash_index (i + 1) ≡ false
    → are_id_bytes i (hex b ++ s) ≡ are_id_bytes (i + 1 + 1) s
unfolding are_id_bytes is_id_byte hex
hex_step i b s h p q = ground (
  arith,
  hex_digit-is_hexadecimal (b / 16) (omega arith),
  hex_digit-is_hexadecimal (b % 16) (omega arith),
)

-- No dash belongs to the `2 n` places from `i` on.
no_dash : ℕ → List ℕ → Bool
no_dash i [] = true
no_dash i (b ∷ bs) = not (is_dash_index i) && not (is_dash_index (i + 1)) && no_dash (i + 1 + 1) bs

-- The place after the digits of a slice.
after : ℕ → List ℕ → ℕ
after i [] = i
after i (b ∷ bs) = after (i + 1 + 1) bs

-- A slice in places that have no dash.
slice_step :
    (i : ℕ) (bs : List ℕ) (s : Text)
    → All (λ b. b < 256) bs
    → no_dash i bs ≡ true
    → are_id_bytes (after i bs) s ≡ true
    → are_id_bytes i (hex_all bs ++ s) ≡ true
unfolding hex_all no_dash after
slice_step i [] s h p e = e
slice_step i (b ∷ bs) s h p e = rw (append_assoc (hex b) (hex_all bs) s) (
    hex_step i b (hex_all bs ++ s) h.0 (ground arith) (ground arith)
    ∙ slice_step (i + 1 + 1) bs s h.1 (ground arith) e)

-- A test of every number below a bound.
passes : (ℕ → Bool) → (bound : ℕ) → Bool
passes test zero = true
passes test (suc bound) = passes test bound && test bound

passes_lem :
    (test : ℕ → Bool) {bound : ℕ} → passes test bound ≡ true → (n : ℕ) → n < bound → test n ≡ true
unfolding passes
passes_lem test {bound = zero} h n lt = absurd (omega arith)
passes_lem test {bound = suc bound} h n lt =
    let (below, top) = and-true (passes test bound) (test bound) h in
    elim (dec_lt n bound) [
      | yes less ↦ passes_lem test below n less
      | no last ↦ let e : n ≡ bound = omega arith in rw e top
    ]

-- The high half of the version byte is 4; that of the variant byte is 8, 9, 10 or 11.
version_table : passes (λ b. version_byte b / 16 == 4) 256 ≡ true
unfolding passes version_byte
version_table = refl

variant_table : passes (λ b. variant_byte b / 64 == 2) 256 ≡ true
unfolding passes variant_byte
variant_table = refl

version_byte_lem : (b : ℕ) → b < 256 → version_byte b / 16 ≡ 4
version_byte_lem b h = (==_iff _ 4).0 (passes_lem _ version_table b h)

variant_byte_lem : (b : ℕ) → b < 256 → variant_byte b / 64 ≡ 2
variant_byte_lem b h = (==_iff _ 2).0 (passes_lem _ variant_table b h)

version_byte-lt : (b : ℕ) → b < 256 → version_byte b < 256
version_byte-lt b h = omega (arith, version_byte_lem b h)

variant_byte-lt : (b : ℕ) → b < 256 → variant_byte b < 256
variant_byte-lt b h = omega (arith, variant_byte_lem b h)

dash_step :
    (i : ℕ) (s : Text)
    → is_dash_index i ≡ true
    → are_id_bytes (i + 1) s ≡ true
    → are_id_bytes i (b'-' ∷ s) ≡ true
unfolding are_id_bytes is_id_byte
dash_step i s p h = ground arith

slice_last :
    (i : ℕ) (bs : List ℕ)
    → All (λ b. b < 256) bs
    → no_dash i bs ≡ true
    → are_id_bytes i (hex_all bs) ≡ true
unfolding are_id_bytes
slice_last i bs h p = rw (append-nil (hex_all bs)) at (slice_step i bs [] h p refl)

raw_id-are_id_bytes : (v : Bytes) → AreBytes v → are_id_bytes 0 (raw_id v) ≡ true
unfolding raw_id is_dash_index no_dash after
raw_id-are_id_bytes v a =
    let version = version_byte-lt v.b6 a.b6_lt in
    let variant = variant_byte-lt v.b8 a.b8_lt in
    slice_step 0 (slice_0_4 v) _ (omega arith) refl (
      dash_step 8 _ refl (
        slice_step 9 (slice_4_6 v) _ (omega arith) refl (
          dash_step 13 _ refl (
            slice_step 14 (slice_6_8 v) _ (omega arith) refl (
              dash_step 18 _ refl (
                slice_step 19 (slice_8_10 v) _ (omega arith) refl
                  (dash_step 23 _ refl (slice_last 24 (slice_10_16 v) (omega arith) refl))))))))

raw_id-length : (v : Bytes) → length (raw_id v) ≡ 36
unfolding raw_id hex_all hex
raw_id-length v = refl

raw_id-is_valid : (v : Bytes) → AreBytes v → is_valid (raw_id v) ≡ true
unfolding is_valid
raw_id-is_valid v a = ground (arith, raw_id-length v, raw_id-are_id_bytes v a)

-- The version digit, at place 14, is '4', and the variant digit, at place 19, is one of '8', '9',
-- 'a' and 'b'.
abbrev pub digit_at : ℕ → Text → ℕ
digit_at i [] = 0
digit_at zero (c ∷ s) = c
digit_at (suc i) (c ∷ s) = digit_at i s

version_digit : (v : Bytes) → v.b6 < 256 → digit_at 14 (raw_id v) ≡ b'4'
unfolding raw_id hex_all hex hex_digit
version_digit v h = ground (arith, version_byte_lem v.b6 h)

variant_cases :
    (d : ℕ)
    → 8 ≤ d
    → d ≤ 11
    → (hex_digit d ≡ b'8') ⊎ ((hex_digit d ≡ b'9') ⊎ ((hex_digit d ≡ b'a') ⊎ (hex_digit d ≡ b'b')))
unfolding hex_digit
variant_cases d h k = elim (dec_lt d 9) [
  | yes p ↦ inl (ground arith)
  | no p ↦ elim (dec_lt d 10) [
    | yes q ↦ inr (inl (ground arith))
    | no q ↦ elim (dec_lt d 11) [
      | yes r ↦ inr (inr (inl (ground arith)))
      | no r ↦ inr (inr (inr (ground arith)))
    ]
  ]
]

variant_digit :
    (v : Bytes)
    → v.b8 < 256
    → let d = digit_at 19 (raw_id v) in (d ≡ b'8') ⊎ ((d ≡ b'9') ⊎ ((d ≡ b'a') ⊎ (d ≡ b'b')))
unfolding raw_id hex_all hex hex_digit
variant_digit v h =
    let two = variant_byte_lem v.b8 h in
    variant_cases (variant_byte v.b8 / 16) (omega arith) (omega arith)

-- For any 16 random bytes NewID returns an ID: their text is valid, of version 4 and the RFC 4122
-- variant, and it is returned as it is.
pub new_id-valid :
    (v : Bytes)
    → AreBytes v
    → (new_id (ok v) ≡ ok (raw_id v))
      × (is_valid (raw_id v) ≡ true)
      × (digit_at 14 (raw_id v) ≡ b'4')
      × (let d = digit_at 19 (raw_id v) in (d ≡ b'8') ⊎ ((d ≡ b'9') ⊎ ((d ≡ b'a') ⊎ (d ≡ b'b'))))
unfolding new_id
new_id-valid v a =
    let valid = raw_id-is_valid v a in
    (rw (parse_id-valid (raw_id v) valid), valid, version_digit v a.b6_lt, variant_digit v a.b8_lt)
