-- ===== src/Base/Lists.antt =====
-- Lists measured by native numbers, and a predicate on all elements, under the library's names.
use Prim.Native.Nat.{ℕ, zero, suc, ◌+◌, ◌*◌, ◌≤◌}
use mathlib.Core.Path.{◌≡◌, refl}
use mathlib.Core.Logic.{◌≢◌, ◌⊎◌, inl, inr}
use native.Mathlib.Decide.{ℕ_discrete}
use mathlib.Core.Option.{Option, none, some}
use mathlib.Core.List.{List, [], ◌∷◌, ◌++◌, reverse, reverse-cons}
use native.Mathlib.Omega.{arith}

module _ {ℓ} {A : Type ℓ} where
  abbrev pub length : List A → ℕ
  length [] = 0
  length (x ∷ xs) = suc (length xs)

  pub length-append : (xs ys : List A) → length (xs ++ ys) ≡ length xs + length ys
  length-append [] ys = omega arith
  length-append (x ∷ xs) ys = omega (arith, length-append xs ys)

  abbrev pub get_elem? : List A → ℕ → Option A
  get_elem? [] i = none
  get_elem? (x ∷ xs) zero = some x
  get_elem? (x ∷ xs) (suc i) = get_elem? xs i

  -- A write out of bounds changes nothing.
  abbrev pub set : List A → ℕ → A → List A
  set [] i v = []
  set (x ∷ xs) zero v = v ∷ xs
  set (x ∷ xs) (suc i) v = x ∷ set xs i v

  abbrev pub replicate : ℕ → A → List A
  replicate zero v = []
  replicate (suc n) v = v ∷ replicate n v

  pub length-set : (xs : List A) (i : ℕ) (v : A) → length (set xs i v) ≡ length xs
  length-set [] i v = refl
  length-set (x ∷ xs) zero v = refl
  length-set (x ∷ xs) (suc i) v = omega (arith, length-set xs i v)

module _ {ℓ} {A : Type ℓ} (weight : A → ℕ) where
  -- The sum of the weights of the elements.
  pub total : List A → ℕ
  total [] = 0
  total (x ∷ xs) = weight x + total xs

  pub total-set :
      (xs : List A) (i : ℕ) (a b : A)
      → get_elem? xs i ≡ some a
      → total (set xs i b) + weight a ≡ total xs + weight b
  unfolding total
  total-set [] i a b h = cc
  total-set (x ∷ xs) zero a b h = ground arith
  total-set (x ∷ xs) (suc i) a b h = omega (arith, total-set xs i a b h)

  pub total-ge : (xs : List A) (i : ℕ) {a : A} → get_elem? xs i ≡ some a → weight a ≤ total xs
  unfolding total
  total-ge [] i h = cc
  total-ge (x ∷ xs) zero h = ground arith
  total-ge (x ∷ xs) (suc i) h = omega (arith, total-ge xs i h)

  pub total-le : (k : ℕ) → ((a : A) → weight a ≤ k) → (xs : List A) → total xs ≤ k * length xs
  unfolding total
  total-le k h [] = omega arith
  total-le k h (x ∷ xs) = grind (arith, h x, total-le k h xs)

  pub total-replicate : (n : ℕ) (a : A) → total (replicate n a) ≡ n * weight a
  unfolding total
  total-replicate zero a = omega arith
  total-replicate (suc n) a = grind (arith, total-replicate n a)

module _ {ℓ κ} {A : Type ℓ} (P : A → Type κ) where
  abbrev pub All : List A → Type κ
  All [] = Unit
  All (x ∷ xs) = P x × All xs

  pub All-append : (xs ys : List A) → All xs → All ys → All (xs ++ ys)
  All-append [] ys hx hy = hy
  All-append (x ∷ xs) ys (p, hx) hy = (p, All-append xs ys hx hy)

  pub All-reverse : (xs : List A) → All xs → All (reverse xs)
  All-reverse [] h = tt
  All-reverse (x ∷ xs) (p, h) =
      rw (reverse-cons x xs) (All-append (reverse xs) (x ∷ []) (All-reverse xs h) (p, tt))

  pub All-init : (xs : List A) (x : A) → All (xs ++ x ∷ []) → All xs
  All-init [] x h = tt
  All-init (y ∷ xs) x (p, h) = (p, All-init xs x h)

  pub All-last : (xs : List A) (x : A) → All (xs ++ x ∷ []) → P x
  All-last [] x h = h.0
  All-last (y ∷ xs) x h = All-last xs x h.1

pub All-map {ℓ κ μ} :
    {A : Type ℓ} {P : A → Type κ} {Q : A → Type μ} (xs : List A)
    → ((x : A) → P x → Q x)
    → All P xs
    → All Q xs
All-map [] f h = tt
All-map (x ∷ xs) f (p, h) = (f x p, All-map xs f h)

pub total-eq_zero {ℓ} :
    {A : Type ℓ} (weight : A → ℕ) (xs : List A) → All (λ a. weight a ≡ 0) xs → total weight xs ≡ 0
unfolding total
total-eq_zero weight [] h = refl
total-eq_zero weight (x ∷ xs) h = omega (arith, h.0, total-eq_zero weight xs h.1)

-- A sum that is not zero has an element that is not.
pub total-ne_zero {ℓ} :
    {A : Type ℓ} (weight : A → ℕ) (xs : List A)
    → (total weight xs ≡ 0) ⊎ ((i : ℕ) × (a : A) × (get_elem? xs i ≡ some a) × (weight a ≢ 0))
unfolding total
total-ne_zero weight [] = inl refl
total-ne_zero weight (x ∷ xs) = elim (ℕ_discrete (weight x) 0) [
  | no here ↦ inr (zero, x, refl, here)
  | yes none_here ↦ elim (total-ne_zero weight xs) [
    | inl e ↦ inl (omega arith)
    | inr (i, a, at, there) ↦ inr (suc i, a, at, there)
  ]
]

pub total-zero {ℓ} :
    {A : Type ℓ} (weight : A → ℕ) (xs : List A) → total weight xs ≡ 0 → All (λ a. weight a ≡ 0) xs
unfolding total
total-zero weight [] h = tt
total-zero weight (x ∷ xs) h = (omega arith, total-zero weight xs (omega arith))
