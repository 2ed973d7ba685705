-- ===== src/Errors.antt =====
-- Go errors as data: what errors.Is finds in one, and the text of its message. The sentinels are
-- the error variables that the code declares or asks for, and *http.MaxBytesError, for which it
-- asks with errors.As; any other error is `foreign`.
use async_job_poc.Base.{
  ◌≡◌, refl, ◌⊎◌, inl, inr, ℕ, Bool, true, false, ◌||◌, List, [], ◌∷◌, ◌++◌, ◌==◌, ℤ,
}
use async_job_poc.Text.{Text, bytes}

pub data Sentinel : Type 0 where
  invalid_id invalid_type invalid_status invalid_payload invalid_created_at : Sentinel
  invalid_updated_at invalid_retry invalid_event_time invalid_transition : Sentinel
  invalid_failure_reason job_queue_unavailable job_not_found job_already_exists : Sentinel
  job_retry_scheduled job_retries_exhausted unexpected_job_type : Sentinel
  invalid_handler_payload handler_not_registered : Sentinel
  canceled deadline_exceeded eof duplicated_key record_not_found max_bytes : Sentinel
  server_closed : Sentinel

pub tag : Sentinel → ℕ
tag invalid_id = 0
tag invalid_type = 1
tag invalid_status = 2
tag invalid_payload = 3
tag invalid_created_at = 4
tag invalid_updated_at = 5
tag invalid_retry = 6
tag invalid_event_time = 7
tag invalid_transition = 8
tag invalid_failure_reason = 9
tag job_queue_unavailable = 10
tag job_not_found = 11
tag job_already_exists = 12
tag job_retry_scheduled = 13
tag job_retries_exhausted = 14
tag unexpected_job_type = 15
tag invalid_handler_payload = 16
tag handler_not_registered = 17
tag canceled = 18
tag deadline_exceeded = 19
tag eof = 20
tag duplicated_key = 21
tag record_not_found = 22
tag max_bytes = 23
tag server_closed = 24

-- A piece of a message: literal text or %s, %q, %d.
pub data Piece : Type 0 where
  text : Text → Piece
  quoted : Text → Piece
  number : ℤ → Piece

pub data Error : Type 0 where
  sentinel : Sentinel → Error
  foreign : Text → Error
  -- fmt.Errorf with one %w, between two runs of other pieces.
  wrap : List Piece → Error → List Piece → Error
  -- fmt.Errorf("%w … %w")
  wrap_two : Error → List Piece → Error → Error
  -- errors.Join
  join : Error → Error → Error

-- errors.Is
unfoldable pub is : Error → Sentinel → Bool
unfolding tag
is (sentinel t) s = tag t == tag s
is (foreign _) s = false
is (wrap _ e _) s = is e s
is (wrap_two e _ f) s = is e s || is f s
is (join e f) s = is e s || is f s

-- The texts of the sentinels.
pub sentinel_text : Sentinel → Text
sentinel_text invalid_id = bytes "invalid job ID"
sentinel_text invalid_type = bytes "invalid job type"
sentinel_text invalid_status = bytes "invalid job status"
sentinel_text invalid_payload = bytes "invalid job payload"
sentinel_text invalid_created_at = bytes "invalid job creation time"
sentinel_text invalid_updated_at = bytes "invalid job update time"
sentinel_text invalid_retry = bytes "invalid job retry values"
sentinel_text invalid_event_time = bytes "invalid job lifecycle time"
sentinel_text invalid_transition = bytes "invalid job status transition"
sentinel_text invalid_failure_reason = bytes "invalid job failure reason"
sentinel_text job_queue_unavailable = bytes "job queue unavailable"
sentinel_text job_not_found = bytes "job not found"
sentinel_text job_already_exists = bytes "job already exists"
sentinel_text job_retry_scheduled = bytes "job retry scheduled"
sentinel_text job_retries_exhausted = bytes "job retries exhausted"
sentinel_text unexpected_job_type = bytes "unexpected job type"
sentinel_text invalid_handler_payload = bytes "invalid handler payload"
sentinel_text handler_not_registered = bytes "job handler not registered"
sentinel_text canceled = bytes "context canceled"
sentinel_text deadline_exceeded = bytes "context deadline exceeded"
sentinel_text eof = bytes "EOF"
sentinel_text duplicated_key = bytes "duplicated key not allowed"
sentinel_text record_not_found = bytes "record not found"
sentinel_text max_bytes = bytes "http: request body too large"
sentinel_text server_closed = bytes "http: Server closed"

-- The verbs of package fmt that the messages use: strconv.Quote for %q, strconv.Itoa for %d.
pub record Verbs : Type 0 where
  pub quote : Text → Text
  pub itoa : ℤ → Text

module _ (verbs : Verbs) where
  pub piece_text : Piece → Text
  piece_text (text s) = s
  piece_text (quoted s) = verbs.quote s
  piece_text (number n) = verbs.itoa n

  pub pieces_text : List Piece → Text
  unfolding piece_text
  pieces_text [] = []
  pieces_text (p ∷ ps) = piece_text p ++ pieces_text ps

  -- err.Error()
  unfoldable pub message : Error → Text
  unfolding sentinel_text pieces_text
  message (sentinel s) = sentinel_text s
  message (foreign s) = s
  message (wrap before e after) = pieces_text before ++ (message e ++ pieces_text after)
  message (wrap_two e between f) = message e ++ (pieces_text between ++ message f)
  message (join e f) = message e ++ (10 ∷ message f)

-- The result of a fallible function: a value or an error.
pub data Result {ℓ} (A : Type ℓ) : Type ℓ where
  ok : A → Result A
  err : Error → Result A

abbrev pub is_ok {ℓ} : {A : Type ℓ} → Result A → Bool
is_ok (ok a) = true
is_ok (err e) = false

-- It failed, with an error in which errors.Is finds the sentinel.
abbrev pub FailsAs {ℓ} : {A : Type ℓ} → Sentinel → Result A → Type 0
FailsAs s (ok a) = ⊥
FailsAs s (err e) = is e s ≡ true

abbrev pub Succeeds {ℓ} : {A : Type ℓ} → Result A → Type ℓ
Succeeds {A = A} r = (a : A) × (r ≡ ok a)

abbrev pub Fails {ℓ} : {A : Type ℓ} → Result A → Type ℓ
Fails r = (e : Error) × (r ≡ err e)

pub Result-cases {ℓ} : {A : Type ℓ} (result : Result A) → Succeeds result ⊎ Fails result
Result-cases (err e) = inr (e, refl)
Result-cases (ok a) = inl (a, refl)

-- Sequencing: the first error ends the chain.
infixl 5 ◌>>=◌
abbrev pub ◌>>=◌ {ℓ κ} : {A : Type ℓ} {B : Type κ} (m : Result A) (next : A → Result B) → Result B
◌>>=◌ m next = elim m [ err e ↦ err e | ok a ↦ next a ]

-- `if !test { return err }`
abbrev pub ensure : Bool → Error → Result (Unit {0})
ensure true e = ok tt
ensure false e = err e

infixl 5 ◌>>◌
abbrev pub ◌>>◌ {ℓ} : {B : Type ℓ} → Result (Unit {0}) → Result B → Result B
◌>>◌ check rest = elim check [ err e ↦ err e | ok _ ↦ rest ]

-- `if err := m; err != nil { return fmt.Errorf("…: %w", err) }`
abbrev pub wrapped {ℓ} : {A : Type ℓ} → List Piece → Result A → Result A
wrapped pieces (ok a) = ok a
wrapped pieces (err e) = err (wrap pieces e [])

-- Inversion of a chain that succeeds.
pub wrapped_bind-ok {ℓ κ} :
    {A : Type ℓ} {B : Type κ} (pieces : List Piece) (r : Result A) (f : A → Result B) {b : B}
    → (wrapped pieces r >>= f) ≡ ok b
    → (a : A) × (r ≡ ok a) × (f a ≡ ok b)
wrapped_bind-ok pieces (ok a) f h = (a, refl, h)
wrapped_bind-ok pieces (err e) f h = cc

pub wrapped-ok {ℓ} :
    {A : Type ℓ} (pieces : List Piece) (r : Result A) {a : A} → wrapped pieces r ≡ ok a → r ≡ ok a
wrapped-ok pieces (ok a) h = h
wrapped-ok pieces (err e) h = cc
