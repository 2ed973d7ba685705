-- ===== src/Text.antt =====
-- Go strings as sequences of bytes, with the functions of package strings that the code calls:
-- ==, TrimSpace and ToLower. A byte is a number below 256.
pub mod Trim
pub mod Equality
use Prim.Native.Char.{code}
use async_job_poc.Base.{
  ℕ, zero, suc, ◌+◌, String, Bool, true, false, ◌&&◌, ◌||◌, List, [], ◌∷◌, reverse, leb, ◌==◌,
  if◌then◌else◌,
}

abbrev pub Text : Type 0
Text = List ℕ

-- The bytes of an ASCII literal.
abbrev pub bytes : String → Text
bytes String.[] = []
bytes (String.◌∷◌ c s) = code c ∷ bytes s

unfoldable pub text_eq : Text → Text → Bool
text_eq [] [] = true
text_eq [] (_ ∷ _) = false
text_eq (_ ∷ _) [] = false
text_eq (a ∷ s) (b ∷ t) = (a == b) && text_eq s t

-- '\t', '\n', '\v', '\f', '\r' and ' '.
pub is_ascii_space : ℕ → Bool
is_ascii_space c = (leb 9 c && leb c 13) || c == 32

-- U+0085 and U+00A0 in UTF-8.
pub is_two_byte_space : ℕ → ℕ → Bool
is_two_byte_space a b = a == 0xc2 && (b == 0x85 || b == 0xa0)

-- U+1680, U+2000 to U+200A, U+2028, U+2029, U+202F, U+205F and U+3000 in UTF-8.
pub is_three_byte_space : ℕ → ℕ → ℕ → Bool
is_three_byte_space a b c =
    (a == 0xe1 && b == 0x9a && c == 0x80)
    || (a == 0xe2
        && b == 0x80
        && ((leb 0x80 c && leb c 0x8a) || c == 0xa8 || c == 0xa9 || c == 0xaf))
    || (a == 0xe2 && b == 0x81 && c == 0x9f)
    || (a == 0xe3 && b == 0x80 && c == 0x80)

-- The number of bytes of the white-space character at the head of a text, 0 if there is none.
space_width : Text → ℕ
unfolding is_ascii_space is_two_byte_space is_three_byte_space
space_width [] = 0
space_width (a ∷ []) = if is_ascii_space a then 1 else 0
space_width (a ∷ b ∷ []) = if is_ascii_space a then 1 else if is_two_byte_space a b then 2 else 0
space_width (a ∷ b ∷ c ∷ _) =
    if is_ascii_space a
    then 1
    else if is_two_byte_space a b
    then 2
    else if is_three_byte_space a b c
    then 3
    else 0

-- The same for the last character of a text that is given backwards.
back_space_width : Text → ℕ
unfolding is_ascii_space is_two_byte_space is_three_byte_space
back_space_width [] = 0
back_space_width (a ∷ []) = if is_ascii_space a then 1 else 0
back_space_width (b ∷ a ∷ []) =
    if is_ascii_space b then 1 else if is_two_byte_space a b then 2 else 0
back_space_width (c ∷ b ∷ a ∷ _) =
    if is_ascii_space c
    then 1
    else if is_two_byte_space b c
    then 2
    else if is_three_byte_space a b c
    then 3
    else 0

-- Drop white space at the head; `skip` counts the bytes left of a character that is dropped.
trim_from : (Text → ℕ) → (skip : ℕ) → Text → Text
trim_from width skip [] = []
trim_from width (suc skip) (c ∷ s) = trim_from width skip s
trim_from width zero (c ∷ s) = elim (width (c ∷ s)) [
  | zero ↦ c ∷ s
  | suc skip ↦ trim_from width skip s
]

pub trim_left : Text → Text
trim_left s = trim_from space_width 0 s

pub trim_right : Text → Text
trim_right s = reverse (trim_from back_space_width 0 (reverse s))

-- strings.TrimSpace
unfoldable pub trim_space : Text → Text
unfolding trim_left trim_right trim_from space_width back_space_width
trim_space s = trim_right (trim_left s)

-- The lower case of the character that starts with byte `c`, before the bytes `s`: its first byte,
-- and the number of bytes of `s` that it takes. U+0130 and U+212A are the only characters beyond
-- ASCII whose lower case is ASCII ('i' and 'k'). Every other byte beyond ASCII is kept as it is,
-- where Go maps the character to another one beyond ASCII: the code only compares the result with
-- ASCII words, and drops it when it is none of them.
lower_head : ℕ → Text → ℕ × ℕ
lower_head c [] = (if leb b'A' c && leb c b'Z' then c + 32 else c, 0)
lower_head c (d ∷ []) =
    if c == 0xc4 && d == 0xb0
    then (b'i', 1)
    else (if leb b'A' c && leb c b'Z' then c + 32 else c, 0)
lower_head c (d ∷ e ∷ _) =
    if c == 0xc4 && d == 0xb0
    then (b'i', 1)
    else if c == 0xe2 && d == 0x84 && e == 0xaa
    then (b'k', 2)
    else (if leb b'A' c && leb c b'Z' then c + 32 else c, 0)

lower_from : (skip : ℕ) → Text → Text
unfolding lower_head
lower_from skip [] = []
lower_from (suc skip) (c ∷ s) = lower_from skip s
lower_from zero (c ∷ s) = let (d, skip) = lower_head c s in d ∷ lower_from skip s

-- strings.ToLower
unfoldable pub to_lower : Text → Text
unfolding lower_from
to_lower s = lower_from 0 s
