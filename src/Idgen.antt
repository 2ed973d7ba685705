-- ===== src/Idgen.antt =====
-- internal/platform/idgen/uuid.go. The random source is an argument: its error, or the 16 bytes
-- that it gave.
pub mod Valid
use Prim.Native.Nat.{bit_and, bit_or}
use async_job_poc.Base.{ℕ, ◌+◌, ◌-◌, ◌/◌, ◌%◌, List, [], ◌∷◌, ◌++◌, ltb, if◌then◌else◌}
use async_job_poc.Text.{Text, bytes}
use async_job_poc.Errors.{text, Result, ok, err, wrapped, ◌>>=◌}
use async_job_poc.Job.Id.{parse_id}

-- var value [16]byte
pub record Bytes : Type 0 where
  pub b0 : ℕ
  pub b1 : ℕ
  pub b2 : ℕ
  pub b3 : ℕ
  pub b4 : ℕ
  pub b5 : ℕ
  pub b6 : ℕ
  pub b7 : ℕ
  pub b8 : ℕ
  pub b9 : ℕ
  pub b10 : ℕ
  pub b11 : ℕ
  pub b12 : ℕ
  pub b13 : ℕ
  pub b14 : ℕ
  pub b15 : ℕ

-- A digit of %x.
pub hex_digit : ℕ → ℕ
hex_digit d = if ltb d 10 then b'0' + d else b'a' + (d - 10)

-- %x of one byte.
pub hex : ℕ → Text
unfolding hex_digit
hex b = hex_digit (b / 16) ∷ hex_digit (b % 16) ∷ []

-- value[6]&0x0f | 0x40 and value[8]&0x3f | 0x80
pub version_byte : ℕ → ℕ
version_byte b = bit_or (bit_and b 0x0f) 0x40

pub variant_byte : ℕ → ℕ
variant_byte b = bit_or (bit_and b 0x3f) 0x80

-- %x of a slice.
pub hex_all : List ℕ → Text
unfolding hex
hex_all [] = []
hex_all (b ∷ bs) = hex b ++ hex_all bs

-- The five slices that are printed, after the version and variant bits are set.
abbrev pub slice_0_4 : Bytes → List ℕ
slice_0_4 v = v.b0 ∷ v.b1 ∷ v.b2 ∷ v.b3 ∷ []

abbrev pub slice_4_6 : Bytes → List ℕ
slice_4_6 v = v.b4 ∷ v.b5 ∷ []

abbrev pub slice_6_8 : Bytes → List ℕ
slice_6_8 v = version_byte v.b6 ∷ v.b7 ∷ []

abbrev pub slice_8_10 : Bytes → List ℕ
slice_8_10 v = variant_byte v.b8 ∷ v.b9 ∷ []

abbrev pub slice_10_16 : Bytes → List ℕ
slice_10_16 v = v.b10 ∷ v.b11 ∷ v.b12 ∷ v.b13 ∷ v.b14 ∷ v.b15 ∷ []

-- The text that NewID parses: "%x-%x-%x-%x-%x".
unfoldable pub raw_id : Bytes → Text
raw_id v =
    hex_all (slice_0_4 v)
    ++ (b'-'
        ∷ (hex_all (slice_4_6 v)
            ++ (b'-'
                ∷ (hex_all (slice_6_8 v)
                    ++ (b'-' ∷ (hex_all (slice_8_10 v) ++ (b'-' ∷ hex_all (slice_10_16 v))))))))

-- UUIDGenerator.NewID
unfoldable pub new_id : Result Bytes → Result Text
new_id random = do
  value ← wrapped (text (bytes "generate random UUID bytes: ") ∷ []) random
  wrapped (text (bytes "parse generated UUID: ") ∷ []) (parse_id (raw_id value))
