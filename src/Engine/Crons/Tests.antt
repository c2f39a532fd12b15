-- ===== src/Engine/Crons/Tests.antt =====
-- A schedule that is due: its first run is enqueued, and then no second time.
use chimpbase.Prelude.{ℕ, ◌≡◌, refl, String, true, Option, none, some, List, [], ◌∷◌}
use chimpbase.Prelude.Result.{Result, ok}
use chimpbase.Text.{Text}
use chimpbase.Cron.Search.{next_fire_time}
use chimpbase.Cron.Expression.{compute_next_cron_fire_time, window_loop}
use chimpbase.Schedules.{CronSchedule, claim_next_cron_schedule}
use chimpbase.Schedules.Claim
use chimpbase.Engine.{Engine, pure, begin_transaction}
use chimpbase.Engine.Tests.{idle_engine}
use chimpbase.Engine.Jobs.{CronRegistration}
use chimpbase.Engine.Crons.{process_next_cron_schedule}
use chimpbase.Engine.Crons.Once.{IsOnce}
use chimpbase.Engine.Crons.Once

-- "* * * * *"
abbrev every_minute : Text
every_minute = 42 ∷ 32 ∷ 42 ∷ 32 ∷ 42 ∷ 32 ∷ 42 ∷ 32 ∷ 42 ∷ []

abbrev tick : CronSchedule
tick = record {
  schedule_name = "tick";
  cron_expression = every_minute;
  next_fire_at_ms = 60000;
  lease_token = none;
  lease_expires_at_ms = none;
}

abbrev late_engine : Engine
late_engine = record idle_engine {
  db = record (idle_engine.db) { cron_schedules = tick ∷ [] };
  now = 61000;
}

abbrev crons : List CronRegistration
crons = record { name = "tick"; schedule = every_minute; handler = λ fire_at. pure tt } ∷ []

abbrev processed : Result String (Option (String × ℕ × ℕ)) × Engine
processed = process_next_cron_schedule (λ t. none) (λ a b. true) crons 30000 "token" late_engine

runs_the_schedule : processed.0 ≡ ok (some ("tick", 60000, 120000))
unfolding process_next_cron_schedule compute_next_cron_fire_time next_fire_time window_loop
    begin_transaction
runs_the_schedule = refl

process_next_cron_schedule-IsOnce_example : IsOnce processed.1.db
process_next_cron_schedule-IsOnce_example =
    Once.process_next_cron_schedule-IsOnce (λ t. none) (λ a b. true) crons 30000 "token" late_engine
      (record { depth = refl; saved = refl; pending = refl })
      (record { distinct = tt; recorded = λ r i. absurd i })

claim_next_cron_schedule-IsClaimed_example :
    Claim.IsClaimed
      (λ a b. true)
      61000
      30000
      "token"
      (tick ∷ [])
      (claim_next_cron_schedule (λ a b. true) 61000 30000 "token" (tick ∷ []))
claim_next_cron_schedule-IsClaimed_example =
    Claim.claim_next_cron_schedule-IsClaimed (λ a b. true) 61000 30000 "token" (tick ∷ [])
