-- ===== src/Config/Atoi.antt =====
-- strconv.Atoi on a 64-bit machine: an optional sign and decimal digits, in the range of int.
use async_job_poc.Base.{
  ℕ, zero, suc, ◌+◌, ◌-◌, ◌*◌, ℤ, pos, negsuc, max_int, Bool, true, false, ◌&&◌, Option, none, some,
  [], ◌∷◌, ◌==◌, leb, if◌then◌else◌,
}
use async_job_poc.Text.{Text, bytes}
use async_job_poc.Errors.{Error, foreign, text, quoted, wrap, Result, ok, err}

pub is_digit : ℕ → Bool
is_digit c = leb b'0' c && leb c b'9'

-- The value of digits that follow the value `n`.
pub digits : ℕ → Text → Option ℕ
unfolding is_digit
digits n [] = some n
digits n (c ∷ s) = let rest = digits (10 * n + (c - b'0')) s in if is_digit c then rest else none

-- The value of at least one digit.
abbrev pub natural : Text → Option ℕ
natural [] = none
natural (c ∷ s) = digits 0 (c ∷ s)

-- -n
abbrev pub negate : ℕ → ℤ
negate zero = pos 0
negate (suc n) = negsuc n

-- *strconv.NumError
abbrev atoi_error : Text → Text → Error
atoi_error s reason =
    wrap (text (bytes "strconv.Atoi: parsing ") ∷ quoted s ∷ text (bytes ": ") ∷ [])
      (foreign reason) []

abbrev out_of_range : Text → Error
out_of_range s = atoi_error s (bytes "value out of range")

abbrev pub in_range : Text → (negative : Bool) → Option ℕ → Result ℤ
in_range s negative none = err (atoi_error s (bytes "invalid syntax"))
in_range s false (some n) = if leb n max_int then ok (pos n) else err (out_of_range s)
in_range s true (some n) = if leb n (max_int + 1) then ok (negate n) else err (out_of_range s)

abbrev pub signed : (whole : Text) → Text → Result ℤ
signed whole [] = in_range whole false none
signed whole (c ∷ s) =
    if c == b'-'
    then in_range whole true (natural s)
    else if c == b'+'
    then in_range whole false (natural s)
    else in_range whole false (natural (c ∷ s))

unfoldable pub atoi : Text → Result ℤ
unfolding digits
atoi s = signed s s
