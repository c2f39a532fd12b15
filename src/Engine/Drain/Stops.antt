-- ===== src/Engine/Drain/Stops.antt =====
-- What `drain` has called when it stops, and why it stops.
use chimpbase.Prelude.{
  ℕ, suc, ◌+◌, ◌≤◌, ◌<◌, ◌≡◌, String, Bool, true, false, Option, none, some, ◌⊎◌,
}
use chimpbase.Prelude.Result.{Result, ok, err}
use chimpbase.Engine.{Engine, Run}
use chimpbase.Engine.Drain.{
  max_duration, max_runs, idle, DrainResult, Round, ran_cron, ran_queue, ran_nothing, out_of_time,
  try_one, drain_rounds,
}

module _ (cron queue : Run Bool) where
  -- The calls that lead from one state to another, of which so many found a schedule and so many
  -- a job; the others found nothing.
  pub data Calls (s : Engine) : ℕ → ℕ → Engine → Type 0 where
    no_call : Calls s 0 0 s
    cron_ran :
        {c j : ℕ} {t u : Engine} → Calls s c j t → cron t ≡ (ok true, u) → Calls s (suc c) j u
    queue_ran :
        {c j : ℕ} {t u : Engine} → Calls s c j t → queue t ≡ (ok true, u) → Calls s c (suc j) u
    cron_idle : {c j : ℕ} {t u : Engine} → Calls s c j t → cron t ≡ (ok false, u) → Calls s c j u
    queue_idle : {c j : ℕ} {t u : Engine} → Calls s c j t → queue t ≡ (ok false, u) → Calls s c j u

  -- Both found nothing, one directly after the other.
  pub data IsQuiet (t : Engine) : Type 0 where
    queue_last : (a b : Engine) → cron a ≡ (ok false, b) → queue b ≡ (ok false, t) → IsQuiet t
    cron_last : (a b : Engine) → queue a ≡ (ok false, b) → cron b ≡ (ok false, t) → IsQuiet t

  -- The time that is allowed has passed.
  abbrev pub IsLate : ℕ → Option ℕ → Engine → Type 0
  IsLate started none t = ⊥
  IsLate started (some limit) t = started + limit ≤ t.now

  -- How a drain from `s` can end. The counters are those of the calls that were made.
  pub data Drained (max_duration_ms : Option ℕ) (limit : ℕ) (s : Engine)
      (r : Result String DrainResult × Engine) : Type 0 where
    used_up :
        (c j : ℕ) (t : Engine)
        → Calls s c j t
        → c + j ≡ limit
        → r ≡ (
          ok (record {
            cron_schedules = c;
            queue_jobs = j;
            is_idle = false;
            stop_reason = max_runs;
          }),
          t,
        )
        → Drained max_duration_ms limit s r
    late :
        (c j : ℕ) (t : Engine)
        → Calls s c j t
        → c + j < limit
        → IsLate s.now max_duration_ms t
        → r ≡ (
          ok (record {
            cron_schedules = c;
            queue_jobs = j;
            is_idle = false;
            stop_reason = max_duration;
          }),
          t,
        )
        → Drained max_duration_ms limit s r
    quiet :
        (c j : ℕ) (t : Engine)
        → Calls s c j t
        → c + j < limit
        → IsQuiet t
        → r ≡ (
          ok (record { cron_schedules = c; queue_jobs = j; is_idle = true; stop_reason = idle }),
          t,
        )
        → Drained max_duration_ms limit s r
    failed :
        (c j : ℕ) (t u : Engine) (message : String)
        → Calls s c j t
        → c + j < limit
        → (cron t ≡ (err message, u)) ⊎ (queue t ≡ (err message, u))
        → r ≡ (err message, u)
        → Drained max_duration_ms limit s r

  module _ (s : Engine) (max_duration_ms : Option ℕ) (limit : ℕ) where
    -- What one round of `drain_in_priority_order` does after `c` and `j` runs.
    data Rounded (c j : ℕ) (r : Result String Round × Engine) : Type 0 where
      did_cron : (t : Engine) → Calls s (suc c) j t → r ≡ (ok ran_cron, t) → Rounded c j r
      did_queue : (t : Engine) → Calls s c (suc j) t → r ≡ (ok ran_queue, t) → Rounded c j r
      did_nothing :
          (t : Engine) → Calls s c j t → IsQuiet t → r ≡ (ok ran_nothing, t) → Rounded c j r
      too_late :
          (t : Engine)
          → Calls s c j t
          → IsLate s.now max_duration_ms t
          → r ≡ (ok out_of_time, t)
          → Rounded c j r
      threw :
          (t u : Engine) (message : String)
          → Calls s c j t
          → (cron t ≡ (err message, u)) ⊎ (queue t ≡ (err message, u))
          → r ≡ (err message, u)
          → Rounded c j r

    abbrev try_cron : Run Round → Run Round
    try_cron next = try_one cron queue s.now max_duration_ms limit cron ran_cron next

    abbrev try_queue : Run Round → Run Round
    try_queue next = try_one cron queue s.now max_duration_ms limit queue ran_queue next

    abbrev rounds : ℕ → Bool → ℕ → ℕ → Run DrainResult
    rounds fuel cron_first c j =
        drain_rounds cron queue s.now max_duration_ms limit fuel cron_first c j

    abbrev LoopEnds : ℕ → Type 0
    LoopEnds fuel =
        (cron_first : Bool) (c j : ℕ) (t : Engine)
        → Calls s c j t
        → c + j ≤ limit
        → limit < c + j + fuel
        → Drained max_duration_ms limit s (rounds fuel cron_first c j t)
