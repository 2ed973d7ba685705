-- ===== src/Text/Trim.antt =====
-- strings.TrimSpace: what it leaves has no white space at either end, so trimming twice is
-- trimming once; a text of visible ASCII characters is left as it is.
use mathlib.Core.List.{reverse-reverse, reverse-append}
use async_job_poc.Base.{
  ℕ, zero, suc, ◌≤◌, ◌≡◌, refl, sym, ap, ◌∙◌, inl, inr, [], ◌∷◌, ◌++◌, reverse, arith, ℕ-cases, All,
  All-reverse,
}
use async_job_poc.Text.{
  Text, space_width, back_space_width, trim_from, trim_left, trim_right, trim_space,
}

-- A visible ASCII character.
abbrev pub Visible : ℕ → Type 0
Visible c = (33 ≤ c) × (c ≤ 126)

space_width-Visible : (s : Text) → All Visible s → space_width s ≡ 0
unfolding space_width
space_width-Visible [] h = refl
space_width-Visible (a ∷ []) h = ground arith
space_width-Visible (a ∷ b ∷ []) h = ground arith
space_width-Visible (a ∷ b ∷ c ∷ s) h = ground arith

back_space_width-Visible : (s : Text) → All Visible s → back_space_width s ≡ 0
unfolding back_space_width
back_space_width-Visible [] h = refl
back_space_width-Visible (a ∷ []) h = ground arith
back_space_width-Visible (a ∷ b ∷ []) h = ground arith
back_space_width-Visible (a ∷ b ∷ c ∷ s) h = ground arith

module _ (width : Text → ℕ) where
  trim_from_fixed : (s : Text) → width s ≡ 0 → trim_from width 0 s ≡ s
  unfolding trim_from
  trim_from_fixed [] h = refl
  trim_from_fixed (c ∷ s) h = rw (h, trim_from)

  trim_from-width : width [] ≡ 0 → (skip : ℕ) (s : Text) → width (trim_from width skip s) ≡ 0
  unfolding trim_from
  trim_from-width h skip [] = h
  trim_from-width h (suc skip) (c ∷ s) = trim_from-width h skip s
  trim_from-width h zero (c ∷ s) = elim (ℕ-cases (width (c ∷ s))) [
    | inl e ↦ rw (e, trim_from) e
    | inr (k, e) ↦ rw (e, trim_from) (trim_from-width h k s)
  ]

  -- What is dropped is a prefix.
  trim_from-suffix : (skip : ℕ) (s : Text) → (d : Text) × (s ≡ d ++ trim_from width skip s)
  unfolding trim_from
  trim_from-suffix skip [] = ([], refl)
  trim_from-suffix (suc skip) (c ∷ s) =
      let (d, e) = trim_from-suffix skip s in (c ∷ d, ap (◌∷◌ c) e)
  trim_from-suffix zero (c ∷ s) = elim (ℕ-cases (width (c ∷ s))) [
    | inl e ↦ ([], rw (e, trim_from))
    | inr (k, e) ↦ let (d, p) = trim_from-suffix k s in (c ∷ d, rw (e, trim_from) (ap (◌∷◌ c) p))
  ]

-- A text with no white space at either end is left as it is.
trim_space_fixed :
    (s : Text) → space_width s ≡ 0 → back_space_width (reverse s) ≡ 0 → trim_space s ≡ s
unfolding trim_space
trim_space_fixed s h k =
    ap trim_right (trim_from_fixed space_width s h)
    ∙ ap reverse (trim_from_fixed back_space_width (reverse s) k)
    ∙ reverse-reverse s

space_width-prefix : (p q : Text) → space_width (p ++ q) ≡ 0 → space_width p ≡ 0
unfolding space_width
space_width-prefix [] q h = refl
space_width-prefix (a ∷ []) [] h = h
space_width-prefix (a ∷ []) (b ∷ []) h = ground arith
space_width-prefix (a ∷ []) (b ∷ c ∷ q) h = ground arith
space_width-prefix (a ∷ b ∷ []) [] h = h
space_width-prefix (a ∷ b ∷ []) (c ∷ q) h = ground arith
space_width-prefix (a ∷ b ∷ c ∷ p) q h = h

trim_right-prefix : (s : Text) → (d : Text) × (s ≡ trim_right s ++ d)
unfolding trim_right
trim_right-prefix s =
    let (d, e) = trim_from-suffix back_space_width 0 (reverse s) in
    (reverse d, sym (reverse-reverse s) ∙ ap reverse e ∙ reverse-append d _)

-- A trimmed text starts and ends with no white space.
trim_space-ends :
    (s : Text) → (space_width (trim_space s) ≡ 0) × (back_space_width (reverse (trim_space s)) ≡ 0)
unfolding trim_space
trim_space-ends s =
    let (d, e) = trim_right-prefix (trim_left s) in
    (
      space_width-prefix (trim_space s) d (rw (← e) (trim_from-width space_width refl 0 s)),
      rw reverse-reverse (trim_from-width back_space_width refl 0 (reverse (trim_left s))),
    )

-- Trimming a trimmed text changes nothing.
pub trim_space-trim_space : (s : Text) → trim_space (trim_space s) ≡ trim_space s
trim_space-trim_space s = let (h, k) = trim_space-ends s in trim_space_fixed (trim_space s) h k

-- A text of visible ASCII characters is left as it is.
pub trim_space-Visible : (s : Text) → All Visible s → trim_space s ≡ s
trim_space-Visible s h =
    trim_space_fixed s (space_width-Visible s h)
      (back_space_width-Visible (reverse s) (All-reverse Visible s h))
