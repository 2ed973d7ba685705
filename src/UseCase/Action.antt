-- ===== src/UseCase/Action.antt =====
-- Code that calls the ports: a function of the state of the world outside the process, with an
-- error or a value, and the state that it leaves.
use async_job_poc.Base.{List, []}
use async_job_poc.Errors.{Error, Piece, wrap, Result, ok, err}

abbrev pub Action : Type 0 → Type 0 → Type 0
Action W A = W → Result A × W

module _ {W A : Type 0} where
  abbrev pub pure : A → Action W A
  pure a w = (ok a, w)

  abbrev pub fail : Error → Action W A
  fail e w = (err e, w)

  -- A result that depends on nothing outside.
  abbrev pub lift : Result A → Action W A
  lift r w = (r, w)

  -- A call that returns no error.
  abbrev pub call : (W → A × W) → Action W A
  call f w = (ok (f w).0, (f w).1)

  -- `if err := m; err != nil { return handler(err) }`
  abbrev pub or_fail : (Error → Error) → Action W A → Action W A
  or_fail handler m w = elim (m w).0 [ ok a ↦ (ok a, (m w).1) | err e ↦ (err (handler e), (m w).1) ]

  -- The error of a call as a value.
  abbrev pub outcome : Action W A → Action W (Result A)
  outcome m w = (ok (m w).0, (m w).1)

infixl 5 ◌>>=◌ ◌>>◌
abbrev pub ◌>>=◌ : {W A B : Type 0} → Action W A → (A → Action W B) → Action W B
◌>>=◌ m f w = elim (m w).0 [ ok a ↦ f a (m w).1 | err e ↦ (err e, (m w).1) ]

abbrev pub ◌>>◌ : {W B : Type 0} → Action W (Unit {0}) → Action W B → Action W B
m >> k = m >>= λ _. k

-- `return fmt.Errorf("…%w", err)` with the pieces before the error.
abbrev pub prefix : List Piece → Error → Error
prefix pieces e = wrap pieces e []
