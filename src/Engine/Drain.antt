-- ===== src/Engine/Drain.antt =====
-- `drain` of packages/core/engine.ts, for a finite number of runs. `cron` and `queue` stand for
-- `processNextCronSchedule` and `processNextQueueJob`, and say whether there was something to do.
pub mod Stops
mod Tests
use chimpbase.Prelude.{
  ℕ, zero, suc, ◌+◌, Bool, true, false, Option, none, some, leb, ltb, if◌then◌else◌,
}
use chimpbase.Prelude.Result.{ok}
use chimpbase.Engine.{Engine, Run, ◌>>=◌, pure, throw}

pub data StopReason : Type 0 where
  max_duration max_runs idle : StopReason

pub record DrainResult : Type 0 where
  pub cron_schedules : ℕ
  pub queue_jobs : ℕ
  pub is_idle : Bool
  pub stop_reason : StopReason

-- What one round did.
pub data Round : Type 0 where
  ran_cron ran_queue ran_nothing out_of_time : Round

module _ (cron queue : Run Bool) (started_at_ms : ℕ) (max_duration_ms : Option ℕ)
    (max_runs_allowed : ℕ) where
  -- `platform.now() - startedAtMs >= maxDurationMs`
  abbrev is_over : Option ℕ → ℕ → Bool
  is_over none now = false
  is_over (some limit) now = leb (started_at_ms + limit) now

  abbrev or_next : Round → Run Round → Bool → Run Round
  or_next ran next true = pure ran
  or_next ran next false = next

  -- One priority of `drainInPriorityOrder`, and what follows if there is nothing to do.
  abbrev try_one : Run Bool → Round → Run Round → Run Round
  try_one process ran next s =
      if is_over max_duration_ms s.now
      then (ok out_of_time, s)
      else (process >>= or_next ran next) s

  unfoldable pub drain_in_priority_order : Bool → Run Round
  drain_in_priority_order true = try_one cron ran_cron (try_one queue ran_queue (pure ran_nothing))
  drain_in_priority_order false = try_one queue ran_queue (try_one cron ran_cron (pure ran_nothing))

  abbrev pub result : ℕ → ℕ → Bool → StopReason → DrainResult
  result crons jobs is_idle reason = record {
    cron_schedules = crons;
    queue_jobs = jobs;
    is_idle = is_idle;
    stop_reason = reason;
  }

  abbrev pub next_round : (Bool → ℕ → ℕ → Run DrainResult) → ℕ → ℕ → Round → Run DrainResult
  next_round go crons jobs ran_cron = go false (crons + 1) jobs
  next_round go crons jobs ran_queue = go true crons (jobs + 1)
  next_round go crons jobs ran_nothing = pure (result crons jobs true idle)
  next_round go crons jobs out_of_time = pure (result crons jobs false max_duration)

  -- The loop, on fuel.
  unfoldable pub drain_rounds : ℕ → Bool → ℕ → ℕ → Run DrainResult
  unfolding drain_in_priority_order
  drain_rounds zero cron_first crons jobs = throw "out of fuel"
  drain_rounds (suc fuel) cron_first crons jobs = λ s.
      let rest =
        (drain_in_priority_order cron_first >>= next_round (drain_rounds fuel) crons jobs) s in
      if ltb (crons + jobs) max_runs_allowed
      then if is_over max_duration_ms s.now
        then (ok (result crons jobs false max_duration), s)
        else rest
      else (ok (result crons jobs false max_runs), s)

-- Every round but the last runs something, so there are at most `limit + 1` of them.
unfoldable pub drain : Run Bool → Run Bool → Option ℕ → ℕ → Run DrainResult
unfolding drain_rounds
drain cron queue max_duration_ms limit s =
    drain_rounds cron queue s.now max_duration_ms limit (limit + 1) true 0 0 s
