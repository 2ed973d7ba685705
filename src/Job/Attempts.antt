-- ===== src/Job/Attempts.antt =====
-- The retry rule over a whole life: attempts that all fail.
use Prim.Native.Nat.{min}
use async_job_poc.Base.{
  leb, if◌then◌else◌, ◌∙◌, ℕ, suc, ◌+◌, ◌≤◌, ◌<◌, pos, ◌≡◌, ◌≢◌, inr, List, [], ◌∷◌, length, arith,
  max_int,
}
use native.Mathlib.Decide.{dec_lt, dec_le}
use native.Mathlib.Nat.{zero-add}
use async_job_poc.Text.{Text}
use async_job_poc.Time.{Time, zero_instant}
use async_job_poc.Job.Status.{status_pending, status_failed}
use async_job_poc.Errors.{ok}
use async_job_poc.Job.Payload.{Unmarshal}
use async_job_poc.Job.Entity.{NewParams, Job, new}
use async_job_poc.Job.Lifecycle.{mark_processing, record_failure}
use async_job_poc.Job.Transitions.{
  IsReason, mark_processing_lem, record_failure_retry, record_failure_terminal, terminal_absorbs,
}

-- One attempt that fails: when it starts, when it fails, and why.
pub record Attempt : Type 0 where
  pub start : Time
  pub finish : Time
  pub reason : Text

-- What ProcessJob.Execute does to the entity when the executor fails.
pub attempt : Attempt → Job → Job
attempt a j = (record_failure a.finish a.reason (mark_processing a.start j).1).1

unfoldable pub run_attempts : List Attempt → Job → Job
unfolding attempt
run_attempts [] j = j
run_attempts (a ∷ rest) j = run_attempts rest (attempt a j)

-- The attempts follow one another in time, from `last` on, and each has a reason.
abbrev pub AreTimely : ℕ → List Attempt → Type 0
AreTimely last [] = Unit
AreTimely last (a ∷ rest) =
    (last ≤ a.start.instant)
    × (a.start.instant ≢ zero_instant)
    × (a.start.instant ≤ a.finish.instant)
    × (a.finish.instant ≢ zero_instant)
    × IsReason a.reason
    × AreTimely a.finish.instant rest

-- A pending job that has used `count` of `max` retries.
pub record IsWaiting (count max : ℕ) (j : Job) : Type 0 where
  pub status : j.status ≡ status_pending
  pub retry_count : j.retry_count ≡ pos count
  pub max_retries : j.max_retries ≡ pos max
  pub bounded : max ≤ max_int

-- A job that failed with all its retries used.
pub record IsExhausted (max : ℕ) (j : Job) : Type 0 where
  pub status : j.status ≡ status_failed
  pub retry_count : j.retry_count ≡ pos max

attempt-IsWaiting :
    (a : Attempt) (j : Job) {count max : ℕ}
    → IsWaiting count max j
    → count < max
    → AreTimely j.updated_at.instant (a ∷ [])
    → IsWaiting (suc count) max (attempt a j)
      × ((attempt a j).updated_at.instant ≡ a.finish.instant)
unfolding attempt
attempt-IsWaiting a j w lt t = ground (
  arith,
  mark_processing_lem a.start j,
  record_failure_retry a.finish a.reason (mark_processing a.start j).1,
)

attempt-IsExhausted :
    (a : Attempt) (j : Job) {max : ℕ}
    → IsWaiting max max j
    → AreTimely j.updated_at.instant (a ∷ [])
    → IsExhausted max (attempt a j)
unfolding attempt
attempt-IsExhausted a j w t = ground (
  arith,
  mark_processing_lem a.start j,
  record_failure_terminal a.finish a.reason (mark_processing a.start j).1,
)

new-IsWaiting :
    (unmarshal : Unmarshal) (p : NewParams) {j : Job} → new unmarshal p ≡ ok j → IsWaiting 0 3 j
unfolding new
new-IsWaiting unmarshal p h = ground arith

attempt_terminal : (a : Attempt) (j : Job) → j.status ≡ status_failed → attempt a j ≡ j
unfolding attempt
attempt_terminal a j h =
    let same = (terminal_absorbs a.start a.reason j (inr h)).0 in
    rw (same, attempt) (terminal_absorbs a.finish a.reason j (inr h)).3

IsExhausted-absorbs :
    (rest : List Attempt) (j : Job) {max : ℕ}
    → IsExhausted max j
    → IsExhausted max (run_attempts rest j)
unfolding run_attempts
IsExhausted-absorbs [] j x = x
IsExhausted-absorbs (a ∷ rest) j x =
    rw (attempt_terminal a j x.status) (IsExhausted-absorbs rest j x)

-- A pending job that has used `count` of `max` retries is still pending after `n` attempts that
-- fail, n ≤ max - count, and has used n more of them.
pub attempts_wait :
    (rest : List Attempt) (j : Job) (count max : ℕ)
    → IsWaiting count max j
    → AreTimely j.updated_at.instant rest
    → count + length rest ≤ max
    → IsWaiting (count + length rest) max (run_attempts rest j)
unfolding run_attempts
attempts_wait [] j count max w t le = let e : count + 0 ≡ count = omega arith in rw e w
attempts_wait (a ∷ rest) j count max w t le =
    let (w', u) = attempt-IsWaiting a j w (omega arith) (t.0, t.1, t.2, t.3, t.4, tt) in
    let e : count + suc (length rest) ≡ suc count + length rest = omega arith in
    rw e (attempts_wait rest (attempt a j) (suc count) max w' (rw u t.5) (omega arith))

-- After one more it has failed for good, with all `max` retries used, whatever is tried later.
pub attempts_exhaust :
    (rest : List Attempt) (j : Job) (count max : ℕ)
    → IsWaiting count max j
    → AreTimely j.updated_at.instant rest
    → count ≤ max
    → max < count + length rest
    → IsExhausted max (run_attempts rest j)
unfolding run_attempts
attempts_exhaust [] j count max w t le lt = absurd (omega arith)
attempts_exhaust (a ∷ rest) j count max w t le lt = elim (dec_lt count max) [
  | yes more ↦
      let (w', u) = attempt-IsWaiting a j w more (t.0, t.1, t.2, t.3, t.4, tt) in
      attempts_exhaust rest (attempt a j) (suc count) max w' (rw u t.5) (omega arith) (omega arith)
  | no used ↦
      let e : count ≡ max = omega arith in
      IsExhausted-absorbs rest (attempt a j)
        (attempt-IsExhausted a j (rw e at w) (t.0, t.1, t.2, t.3, t.4, tt))
]

-- A new job makes one attempt and up to three retries: after n attempts that fail, in order of time
-- and each with a reason, it is pending with n retries used if n ≤ 3, and failed with three used if
-- n > 3.
pub new-retries :
    (unmarshal : Unmarshal) (p : NewParams) {j : Job} (rest : List Attempt)
    → new unmarshal p ≡ ok j
    → AreTimely j.updated_at.instant rest
    → ((run_attempts rest j).status
        ≡ (if leb (length rest) 3 then status_pending else status_failed))
      × ((run_attempts rest j).retry_count ≡ pos (min 3 (length rest)))
new-retries unmarshal p {j} rest h t =
    let w = new-IsWaiting unmarshal p h in
    elim (dec_le (length rest) 3) [
      | yes le ↦
          let w' = rw zero-add at (attempts_wait rest j 0 3 w t (omega arith)) in
          let e : min 3 (length rest) ≡ length rest = omega arith in
          (w'.status ∙ ground arith, rw e w'.retry_count)
      | no lt ↦
          let x = attempts_exhaust rest j 0 3 w t (omega arith) (omega arith) in
          let e : min 3 (length rest) ≡ 3 = omega arith in
          (x.status ∙ ground arith, rw e x.retry_count)
    ]
