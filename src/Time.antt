-- ===== src/Time.antt =====
-- Package time: an instant in nanoseconds, counted from the earliest instant that time.Time
-- represents, and a location, of which 0 is UTC. The zero time is 0001-01-01 00:00:00 UTC, which
-- is 2 ^ 63 seconds after that origin.
use async_job_poc.Base.{ℕ, Bool, ltb, ◌==◌}

pub record Time : Type 0 where
  pub instant : ℕ
  pub location : ℕ

abbrev pub zero_instant : ℕ
zero_instant = 9223372036854775808000000000

abbrev pub zero_time : Time
zero_time = record { instant = zero_instant; location = 0 }

-- Time.IsZero
abbrev pub is_zero : Time → Bool
is_zero t = t.instant == zero_instant

-- Time.Before
abbrev pub before : Time → Time → Bool
before t u = ltb t.instant u.instant

-- Time.UTC
abbrev pub utc : Time → Time
utc t = record t { location = 0 }

-- time.Second, as a number of nanoseconds.
abbrev pub second : ℕ
second = 1000000000
