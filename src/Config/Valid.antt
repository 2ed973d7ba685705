-- ===== src/Config/Valid.antt =====
-- Which configurations Validate accepts.
use mathlib.Core.Path.{subst}
use mathlib.Core.List.{Permᴰ}
use mathlib.Core.List.Permᴰ.{nil, cons, swap, trans}
use async_job_poc.Base.{
  ◌≤◌, ◌≡◌, ◌≢◌, refl, ◌⊎◌, inl, inr, ◌↔◌, ℤ, pos, negsuc, Bool, true, false, not, ltb_ℤ, String,
  none, List, [], ◌∷◌, ◌++◌, length, All, Bool-cases, arith, ◌==◌,
}
use async_job_poc.Text.{Text, bytes, trim_space, to_lower, text_eq}
use async_job_poc.Text.Equality.{text_eq_iff}
use async_job_poc.Errors.{Error, Result, ok, err, wrapped_bind-ok}
use async_job_poc.Config.Atoi.{atoi}
use async_job_poc.Config.{
  Config, is_blank, validate_port, validate_http_address, is_one_of, error_of, error_if,
  missing_values, join_all,
}

-- A text that is not white space alone.
abbrev pub IsGiven : Text → Type 0
IsGiven s = trim_space s ≢ []

abbrev pub IsPort : ℤ → Type 0
IsPort (pos n) = (1 ≤ n) × (n ≤ 65535)
IsPort (negsuc n) = ⊥

abbrev pub IsNatural : ℤ → Type 0
IsNatural (pos n) = Unit
IsNatural (negsuc n) = ⊥

abbrev pub IsOneOf : Text → List Text → Type 0
IsOneOf s [] = ⊥
IsOneOf s (t ∷ ts) = (s ≡ t) ⊎ IsOneOf s ts

abbrev pub IsEnvironment : Text → Type 0
IsEnvironment s =
    IsOneOf (to_lower s)
      (bytes "development" ∷ bytes "test" ∷ bytes "staging" ∷ bytes "production" ∷ [])

abbrev pub IsLevel : Text → Type 0
IsLevel s = IsOneOf (to_lower s) (bytes "debug" ∷ bytes "info" ∷ bytes "warn" ∷ bytes "error" ∷ [])

-- A port follows the host.
pub record IsAddress (split_host_port : Text → Result Text) (address : Text) : Type 0 where
  pub port_value : Text
  pub port : ℤ
  pub splits : split_host_port address ≡ ok port_value
  pub reads : atoi port_value ≡ ok port
  pub is_port : IsPort port

pub record IsValid (split_host_port : Text → Result Text) (cfg : Config) : Type 0 where
  pub mysql_host : IsGiven cfg.mysql.host
  pub mysql_database : IsGiven cfg.mysql.database
  pub mysql_user : IsGiven cfg.mysql.user
  pub mysql_password : IsGiven cfg.mysql.password
  pub redis_host : IsGiven cfg.redis.host
  pub mysql_port : IsPort cfg.mysql.port
  pub redis_port : IsPort cfg.redis.port
  pub redis_db : IsNatural cfg.redis.db
  pub queue_name : IsGiven cfg.redis.queue_name
  pub address : IsAddress split_host_port cfg.http.address
  pub assets_directory : IsGiven cfg.ui.assets_directory
  pub environment : IsEnvironment cfg.app.environment
  pub level : IsLevel cfg.log.level

pub is_blank-false : (s : Text) → (is_blank s ≡ false) ↔ IsGiven s
is_blank-false s = given (trim_space s)
  where
    given : (t : Text) → ((length t == 0) ≡ false) ↔ (t ≢ [])
    given [] = (λ h. cc, λ h. absurd (h refl))
    given (c ∷ t) = (λ h e. cc, λ h. ground arith)

pub validate_port_iff : (name : String) (p : ℤ) → (validate_port name p ≡ ok tt) ↔ IsPort p
unfolding validate_port
validate_port_iff name (pos n) = (ground arith, ground arith)
validate_port_iff name (negsuc n) = (λ h. cc, λ h. absurd h)

pub is_one_of_iff : (s : Text) (ts : List Text) → (is_one_of s ts ≡ true) ↔ IsOneOf s ts
is_one_of_iff s [] = (λ h. cc, λ h. absurd h)
is_one_of_iff s (t ∷ ts) =
    let (sound, complete) = text_eq_iff s t in
    let (below, to_below) = is_one_of_iff s ts in
    (
      λ h. elim (Bool-cases (text_eq s t)) [
        | inl e ↦ inl (sound e)
        | inr e ↦ inr (below (ground arith))
      ],
      λ c. elim c [ inl e ↦ rw (complete e) refl | inr later ↦ ground (arith, to_below later) ],
    )

pub validate_http_address_iff :
    (split_host_port : Text → Result Text) (address : Text)
    → (validate_http_address split_host_port address ≡ ok tt) ↔ IsAddress split_host_port address
unfolding validate_http_address
validate_http_address_iff split_host_port address = (
  λ h.
      let (port_value, s, h') = wrapped_bind-ok _ (split_host_port address) _ h in
      let (port, r, h'') = wrapped_bind-ok _ (atoi port_value) _ h' in
      record {
        port_value = port_value;
        port = port;
        splits = s;
        reads = r;
        is_port = (validate_port_iff "HTTP_ADDRESS port" port).0 h'';
      },
  λ a. rw (a.splits, a.reads) ((validate_port_iff "HTTP_ADDRESS port" a.port).1 a.is_port),
)

-- Parts of the list of errors.
pub append_iff :
    {A : Type 0} {xs ys : List A} {P Q : Type 0}
    → (xs ≡ []) ↔ P
    → (ys ≡ []) ↔ Q
    → (xs ++ ys ≡ []) ↔ (P × Q)
append_iff {xs = []} p q = (λ h. (p.0 refl, q.0 h), λ h. q.1 h.1)
append_iff {xs = x ∷ xs} p q = (λ h. cc, λ h. absurd (no_cons (p.1 h.0)))
  where
    no_cons : {A : Type 0} {x : A} {xs : List A} → x ∷ xs ≡ [] → ⊥
    no_cons e = cc

pub error_of_iff : {r : Result (Unit {0})} {P : Type 0} → (r ≡ ok tt) ↔ P → (error_of r ≡ []) ↔ P
error_of_iff {r = ok _} p = (λ h. p.0 refl, λ h. refl)
error_of_iff {r = err e} p = (λ h. cc, λ h. cc (p.1 h))

pub error_if_iff :
    {test : Bool} {P : Type 0} (message : String)
    → (test ≡ false) ↔ P
    → (error_if test message ≡ []) ↔ P
error_if_iff {test = true} message p = (λ h. cc, λ h. cc (p.1 h))
error_if_iff {test = false} message p = (λ h. p.0 refl, λ h. refl)

pub error_unless_iff :
    {test : Bool} {P : Type 0} (message : String)
    → (test ≡ true) ↔ P
    → (error_if (not test) message ≡ []) ↔ P
error_unless_iff {test = true} message p = (λ h. p.0 refl, λ h. refl)
error_unless_iff {test = false} message p = (λ h. cc, λ h. cc (p.1 h))

pub join_all_iff : (es : List Error) → (join_all es ≡ none) ↔ (es ≡ [])
join_all_iff [] = (λ h. refl, λ h. refl)
join_all_iff (e ∷ []) = (λ h. cc, λ h. cc)
join_all_iff (e ∷ f ∷ es) = (λ h. ground arith, λ h. cc)

abbrev pub HasValue : Text × Text → Type 0
HasValue (name, value) = IsGiven value

pub missing_values-empty : (xs : List (Text × Text)) → (missing_values xs ≡ []) ↔ All HasValue xs
unfolding missing_values
missing_values-empty [] = (λ h. tt, λ h. refl)
missing_values-empty ((name, value) ∷ xs) =
    let (rest, to_rest) = missing_values-empty xs in
    let (given, to_given) = is_blank-false value in
    (
      λ h. elim (Bool-cases (is_blank value)) [
        | inl b ↦ absurd (ground arith)
        | inr b ↦ (given b, rest (ground arith))
      ],
      λ h. ground (arith, to_given h.0, to_rest h.1),
    )

-- The order in which the entries of a map are visited does not matter.
pub All-perm : {A : Type 0} (P : A → Type 0) {xs ys : List A} → Permᴰ xs ys → All P xs → All P ys
All-perm P nil h = tt
All-perm P (cons e p) (h, hs) = (subst P e h, All-perm P p hs)
All-perm P (swap e f) (h, (k, hs)) = (subst P f k, (subst P e h, hs))
All-perm P (trans p q) h = All-perm P q (All-perm P p h)

pub is_negative_iff : (n : ℤ) → (ltb_ℤ n (pos 0) ≡ false) ↔ IsNatural n
is_negative_iff (pos n) = (λ h. tt, λ h. ground arith)
is_negative_iff (negsuc n) = (λ h. cc, λ h. absurd h)
