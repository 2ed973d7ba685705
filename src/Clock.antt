-- ===== src/Clock.antt =====
-- internal/platform/clock/system.go. time.Now is a parameter.
use async_job_poc.Time.{Time, utc}
use async_job_poc.UseCase.Ports.{Clock}

-- SystemClock.Now
abbrev pub system_now : {W : Type 0} → (time_now : W → Time × W) → Clock W
system_now time_now w = (utc (time_now w).0, (time_now w).1)
