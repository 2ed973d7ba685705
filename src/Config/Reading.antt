-- ===== src/Config/Reading.antt =====
-- What Load reads of the environment, variable by variable.
use async_job_poc.Base.{
  String, ◌==◌, length, ◌∷◌, ℤ, pos, ◌≡◌, ◌≢◌, refl, ap, ◌∙◌, sym, ◌⊎◌, inl, inr, ◌↔◌, Option, none,
  some, [], List, Bool-cases, arith, true,
}
use async_job_poc.Text.{Text, bytes, trim_space}
use async_job_poc.Errors.{Result, ok, err, ◌>>=◌, wrapped-ok}
use async_job_poc.Config.Atoi.{atoi}
use async_job_poc.Config.Valid.{is_blank-false}
use async_job_poc.Config.{
  getenv, Config, Environment, or_default, int_or_default, is_blank, read, value_or_default,
  int_from_environment,
}

-- A value as it is given; empty if the variable is unset.
abbrev pub IsRaw : Option Text → Text → Type 0
IsRaw none value = value ≡ []
IsRaw (some raw) value = value ≡ raw

-- A trimmed value, or a default if the variable is unset or white space.
abbrev pub IsText : Option Text → (default value : Text) → Type 0
IsText none default value = value ≡ default
IsText (some raw) default value =
    ((trim_space raw ≡ []) × (value ≡ default)) ⊎ ((trim_space raw ≢ []) × (value ≡ trim_space raw))

-- A decimal integer, or a default if the variable is unset or white space.
abbrev pub IsInteger : Option Text → (default value : ℤ) → Type 0
IsInteger none default value = value ≡ default
IsInteger (some raw) default value =
    ((trim_space raw ≡ []) × (value ≡ default)) ⊎ ((trim_space raw ≢ []) × (atoi raw ≡ ok value))

pub record IsReadFrom (env : Environment) (cfg : Config) : Type 0 where
  pub environment : IsText (env (bytes "APP_ENV")) (bytes "development") cfg.app.environment
  pub address : IsText (env (bytes "HTTP_ADDRESS")) (bytes ":8080") cfg.http.address
  pub assets : IsText (env (bytes "UI_ASSETS_DIR")) (bytes "web/dist") cfg.ui.assets_directory
  pub mysql_host : IsRaw (env (bytes "MYSQL_HOST")) cfg.mysql.host
  pub mysql_port : IsInteger (env (bytes "MYSQL_PORT")) (pos 3306) cfg.mysql.port
  pub mysql_database : IsRaw (env (bytes "MYSQL_DATABASE")) cfg.mysql.database
  pub mysql_user : IsRaw (env (bytes "MYSQL_USER")) cfg.mysql.user
  pub mysql_password : IsRaw (env (bytes "MYSQL_PASSWORD")) cfg.mysql.password
  pub redis_host : IsRaw (env (bytes "REDIS_HOST")) cfg.redis.host
  pub redis_port : IsInteger (env (bytes "REDIS_PORT")) (pos 6379) cfg.redis.port
  pub redis_password : IsRaw (env (bytes "REDIS_PASSWORD")) cfg.redis.password
  pub redis_db : IsInteger (env (bytes "REDIS_DB")) (pos 0) cfg.redis.db
  pub queue_name :
      IsText (env (bytes "REDIS_QUEUE_NAME")) (bytes "jobs:pending") cfg.redis.queue_name
  pub level : IsText (env (bytes "LOG_LEVEL")) (bytes "info") cfg.log.level

is_blank-true : (s : Text) → is_blank s ≡ true → trim_space s ≡ []
is_blank-true s h = empty (trim_space s) h
  where
    empty : (t : Text) → (length t == 0) ≡ true → t ≡ []
    empty [] e = refl
    empty (c ∷ t) e = absurd (ground arith)

text_iff :
    (o : Option Text) (default value : Text)
    → (or_default o default ≡ value) ↔ IsText o default value
text_iff none default value = (λ h. sym h, λ h. sym h)
text_iff (some raw) default value =
    let (given, to_given) = is_blank-false raw in
    elim (Bool-cases (is_blank raw)) [
      | inl b ↦ (
        λ h. inl (is_blank-true raw b, ground arith),
        λ h. elim h [ inl (e, v) ↦ ground arith | inr (n, v) ↦ absurd (n (is_blank-true raw b)) ],
      )
      | inr b ↦ (
        λ h. inr (given b, ground arith),
        λ h. elim h [ inl (e, v) ↦ absurd (given b e) | inr (n, v) ↦ ground arith ],
      )
    ]

IsInteger-iff :
    (name : String) (o : Option Text) (default value : ℤ)
    → (int_or_default name o default ≡ ok value) ↔ IsInteger o default value
IsInteger-iff name none default value = (λ h. cc, λ h. cc)
IsInteger-iff name (some raw) default value =
    let (given, to_given) = is_blank-false raw in
    elim (Bool-cases (is_blank raw)) [
      | inl b ↦ (
        λ h. inl (is_blank-true raw b, ground arith),
        λ h. elim h [ inl (e, v) ↦ ground arith | inr (n, v) ↦ absurd (n (is_blank-true raw b)) ],
      )
      | inr b ↦ (
        λ h. inr (given b, wrapped-ok _ (atoi raw) (rw b at h)),
        λ h. elim h [ inl (e, v) ↦ absurd (given b e) | inr (n, v) ↦ ground arith ],
      )
    ]

IsRaw-iff :
    (env : Environment) (name : String) (value : Text)
    → (getenv env name ≡ value) ↔ IsRaw (env (bytes name)) value
IsRaw-iff env name value = go (env (bytes name))
  where
    go : (o : Option Text) → (elim o [ none ↦ [] | some v ↦ v ] ≡ value) ↔ IsRaw o value
    go none = (λ h. sym h, λ h. sym h)
    go (some raw) = (λ h. sym h, λ h. sym h)

bind-ok :
    {A B : Type 0} (r : Result A) (f : A → Result B) {b : B}
    → (r >>= f) ≡ ok b
    → (a : A) × (r ≡ ok a) × (f a ≡ ok b)
bind-ok (ok a) f h = (a, refl, h)
bind-ok (err e) f h = cc

ok-injective : {A : Type 0} {a b : A} → ok a ≡ ok b → a ≡ b
ok-injective h = cc

module _ (split_host_port : Text → Result Text) (visit : List (Text × Text) → List (Text × Text))
    (env : Environment) (cfg : Config) where
  -- What `read` makes of its variables.
  abbrev Parts : Type 0
  Parts =
      (int_from_environment env "MYSQL_PORT" (pos 3306) ≡ ok cfg.mysql.port)
      × (int_from_environment env "REDIS_PORT" (pos 6379) ≡ ok cfg.redis.port)
      × (int_from_environment env "REDIS_DB" (pos 0) ≡ ok cfg.redis.db)
      × (value_or_default env "APP_ENV" "development" ≡ cfg.app.environment)
      × (value_or_default env "HTTP_ADDRESS" ":8080" ≡ cfg.http.address)
      × (value_or_default env "UI_ASSETS_DIR" "web/dist" ≡ cfg.ui.assets_directory)
      × (getenv env "MYSQL_HOST" ≡ cfg.mysql.host)
      × (getenv env "MYSQL_DATABASE" ≡ cfg.mysql.database)
      × (getenv env "MYSQL_USER" ≡ cfg.mysql.user)
      × (getenv env "MYSQL_PASSWORD" ≡ cfg.mysql.password)
      × (getenv env "REDIS_HOST" ≡ cfg.redis.host)
      × (getenv env "REDIS_PASSWORD" ≡ cfg.redis.password)
      × (value_or_default env "REDIS_QUEUE_NAME" "jobs:pending" ≡ cfg.redis.queue_name)
      × (value_or_default env "LOG_LEVEL" "info" ≡ cfg.log.level)

  read-Parts : read split_host_port visit env ≡ ok cfg → Parts
  unfolding read
  read-Parts h =
      let (p, a, h1) = bind-ok (int_from_environment env "MYSQL_PORT" (pos 3306)) _ h in
      let (q, b, h2) = bind-ok (int_from_environment env "REDIS_PORT" (pos 6379)) _ h1 in
      let (r, c, h3) = bind-ok (int_from_environment env "REDIS_DB" (pos 0)) _ h2 in
      let same = ok-injective h3 in
      (
        a ∙ ap (λ (x : Config). ok x.mysql.port) same,
        b ∙ ap (λ (x : Config). ok x.redis.port) same,
        c ∙ ap (λ (x : Config). ok x.redis.db) same,
        ap (λ (x : Config). x.app.environment) same,
        ap (λ (x : Config). x.http.address) same,
        ap (λ (x : Config). x.ui.assets_directory) same,
        ap (λ (x : Config). x.mysql.host) same,
        ap (λ (x : Config). x.mysql.database) same,
        ap (λ (x : Config). x.mysql.user) same,
        ap (λ (x : Config). x.mysql.password) same,
        ap (λ (x : Config). x.redis.host) same,
        ap (λ (x : Config). x.redis.password) same,
        ap (λ (x : Config). x.redis.queue_name) same,
        ap (λ (x : Config). x.log.level) same,
      )

  Parts-read : Parts → read split_host_port visit env ≡ ok cfg
  unfolding read
  Parts-read (a, b, c, d, e, f, g, h, i, j, k, l, m, n) =
      rw (a, b, c, d, e, f, g, h, i, j, k, l, m, n) refl

  pub read_iff : (read split_host_port visit env ≡ ok cfg) ↔ IsReadFrom env cfg
  unfolding value_or_default int_from_environment
  read_iff = (
    λ h.
        let (a, b, c, d, e, f, g, h, i, j, k, l, m, n) = read-Parts h in
        record {
          environment = (text_iff _ _ _).0 d;
          address = (text_iff _ _ _).0 e;
          assets = (text_iff _ _ _).0 f;
          mysql_host = (IsRaw-iff env "MYSQL_HOST" _).0 g;
          mysql_port = (IsInteger-iff "MYSQL_PORT" _ _ _).0 a;
          mysql_database = (IsRaw-iff env "MYSQL_DATABASE" _).0 h;
          mysql_user = (IsRaw-iff env "MYSQL_USER" _).0 i;
          mysql_password = (IsRaw-iff env "MYSQL_PASSWORD" _).0 j;
          redis_host = (IsRaw-iff env "REDIS_HOST" _).0 k;
          redis_port = (IsInteger-iff "REDIS_PORT" _ _ _).0 b;
          redis_password = (IsRaw-iff env "REDIS_PASSWORD" _).0 l;
          redis_db = (IsInteger-iff "REDIS_DB" _ _ _).0 c;
          queue_name = (text_iff _ _ _).0 m;
          level = (text_iff _ _ _).0 n;
        },
    λ r. Parts-read (
      (IsInteger-iff "MYSQL_PORT" _ _ _).1 r.mysql_port,
      (IsInteger-iff "REDIS_PORT" _ _ _).1 r.redis_port,
      (IsInteger-iff "REDIS_DB" _ _ _).1 r.redis_db,
      (text_iff _ _ _).1 r.environment,
      (text_iff _ _ _).1 r.address,
      (text_iff _ _ _).1 r.assets,
      (IsRaw-iff env "MYSQL_HOST" _).1 r.mysql_host,
      (IsRaw-iff env "MYSQL_DATABASE" _).1 r.mysql_database,
      (IsRaw-iff env "MYSQL_USER" _).1 r.mysql_user,
      (IsRaw-iff env "MYSQL_PASSWORD" _).1 r.mysql_password,
      (IsRaw-iff env "REDIS_HOST" _).1 r.redis_host,
      (IsRaw-iff env "REDIS_PASSWORD" _).1 r.redis_password,
      (text_iff _ _ _).1 r.queue_name,
      (text_iff _ _ _).1 r.level,
    ),
  )
