-- ===== src/Http/Fold.antt =====
-- strings.EqualFold against a word of lower-case ASCII letters and signs.
use async_job_poc.Base.{ℕ, zero, suc, ◌+◌, Bool, ◌&&◌, [], ◌∷◌, leb, ◌==◌, if◌then◌else◌}
use async_job_poc.Text.{Text, text_eq}

lower : ℕ → ℕ
lower c = if leb b'A' c && leb c b'Z' then c + 32 else c

-- The folded character that starts with byte `c`, before the bytes `s`: its first byte, and the
-- number of bytes of `s` that it takes. U+017F and U+212A are the only characters beyond ASCII that
-- fold to ASCII ('s' and 'k'). Every other byte beyond ASCII is kept, and so differs from ASCII.
fold_head : ℕ → Text → ℕ × ℕ
unfolding lower
fold_head c [] = (lower c, 0)
fold_head c (d ∷ []) = if c == 0xc5 && d == 0xbf then (b's', 1) else (lower c, 0)
fold_head c (d ∷ e ∷ _) =
    if c == 0xc5 && d == 0xbf
    then (b's', 1)
    else if c == 0xe2 && d == 0x84 && e == 0xaa
    then (b'k', 2)
    else (lower c, 0)

fold_from : (skip : ℕ) → Text → Text
unfolding fold_head
fold_from skip [] = []
fold_from (suc skip) (c ∷ s) = fold_from skip s
fold_from zero (c ∷ s) = let (d, skip) = fold_head c s in d ∷ fold_from skip s

unfoldable pub equal_fold : Text → (word : Text) → Bool
unfolding fold_from
equal_fold s word = text_eq (fold_from 0 s) word
