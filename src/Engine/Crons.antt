-- ===== src/Engine/Crons.antt =====
-- `processNextCronSchedule` of packages/core/engine.ts. The cache of parsed expressions is left out:
-- the window is what it is from an empty cache.
pub mod Once
mod Tests
use chimpbase.Prelude.{
  ℕ, ◌+◌, ◌≡◌, String, Bool, true, false, Option, none, some, List, [], ◌∷◌, concat, if◌then◌else◌,
}
use chimpbase.Prelude.Result.{Result, ok, err}
use chimpbase.Text.{Text}
use chimpbase.Cron.Field.{CronError, Number}
use chimpbase.Cron.Expression.{Cache, resolve_next_cron_execution_window}
use chimpbase.Queue.{JobTable, cron_run, queue_enqueue}
use chimpbase.Schedules.{
  CronSchedule, ScheduleTable, claim_next_cron_schedule, advance_cron_schedule,
  release_cron_schedule_lease, delete_cron_schedule, insert_cron_run,
}
use chimpbase.Engine.{Db, Engine, Run, throw, run_in_transaction}
use chimpbase.Engine.Jobs.{CronRegistration, get_cron, internal_cron_queue_name}

abbrev pub add_cron_job : Bool → ℕ → String → ℕ → JobTable → JobTable
add_cron_job true now name fire_at_ms rows =
    queue_enqueue now internal_cron_queue_name (cron_run name fire_at_ms) none rows
add_cron_job false now name fire_at_ms rows = rows

-- What the transaction of `processNextCronSchedule` does to the tables: record the run, enqueue its
-- job if the run is new, and move the schedule on, if the lease is still held.
unfoldable pub record_run : String → ℕ → ℕ → ℕ → String → ℕ → Db → Bool × Db
unfolding insert_cron_run advance_cron_schedule
record_run name persisted fire_at_ms next_fire_at_ms token now db =
    let (inserted, runs) = insert_cron_run name fire_at_ms db.cron_runs in
    let (changed, rows) =
      advance_cron_schedule name persisted next_fire_at_ms token db.cron_schedules in
    (
      changed,
      record db {
        jobs = add_cron_job inserted now name fire_at_ms db.jobs;
        cron_runs = runs;
        cron_schedules = rows;
      },
    )

abbrev pub or_throw : String → Engine → Bool × Db → Result String Unit × Engine
or_throw name s (true, db) = (ok tt, record s { db = db })
or_throw name s (false, db) =
    (err (concat "cron schedule advance failed: " name), record s { db = db })

unfoldable pub record_cron_run : String → ℕ → ℕ → ℕ → String → Run Unit
unfolding record_run
record_cron_run name persisted fire_at_ms next_fire_at_ms token s =
    or_throw name s (record_run name persisted fire_at_ms next_fire_at_ms token s.now s.db)

abbrev pub on_schedules : (ScheduleTable → ScheduleTable) → Engine → Engine
on_schedules f s = record s { db = record (s.db) { cron_schedules = f s.db.cron_schedules } }

-- The `catch`: the lease is given back.
abbrev pub or_release :
    {A : Type 0} → String → String → A → Result String Unit × Engine → Result String A × Engine
or_release name token value (ok u, s) = (ok value, s)
or_release name token value (err e, s) =
    (err e, on_schedules (release_cron_schedule_lease name token) s)

-- The error that the search or the parser throws is kept as a fixed text. With the fuel of the
-- loop it does not run out, so the last clause is never reached.
abbrev pub window_of : Option (Result CronError (ℕ × ℕ) × Cache) → Result String (ℕ × ℕ)
window_of (some (ok window, cache)) = ok window
window_of (some (err e, cache)) = err "cron"
window_of none = err "fuel"

module _ (other : Number) (comes_before : String → String → Bool)
    (crons : List CronRegistration) where
  abbrev pub fire_window : CronRegistration → CronSchedule → ℕ → Result String (ℕ × ℕ)
  fire_window registration claimed now = window_of (
      resolve_next_cron_execution_window other [] registration.schedule claimed.next_fire_at_ms now)

  abbrev pub run_window :
      CronSchedule → String → Result String (ℕ × ℕ) → Run (Option (String × ℕ × ℕ))
  run_window claimed token (ok (fire, next)) s =
      or_release claimed.schedule_name token (some (claimed.schedule_name, fire, next)) (
        run_in_transaction
          (record_cron_run claimed.schedule_name claimed.next_fire_at_ms fire next token) s)
  run_window claimed token (err e) s = (err e, s)

  abbrev pub process_claimed_schedule :
      String → Option CronSchedule × ScheduleTable → Run (Option (String × ℕ × ℕ))
  process_claimed_schedule token (none, rows) s = (ok none, s)
  process_claimed_schedule token (some claimed, rows) s =
      let s' = on_schedules (λ old. rows) s in
      elim (get_cron claimed.schedule_name crons) [
        | none ↦ (
          ok none,
          on_schedules
              (λ old.
                delete_cron_schedule claimed.schedule_name
                  (release_cron_schedule_lease claimed.schedule_name token old))
              s',
        )
        | some registration ↦ run_window claimed token (fire_window registration claimed s'.now) s'
      ]

  unfoldable pub process_next_cron_schedule : ℕ → String → Run (Option (String × ℕ × ℕ))
  unfolding claim_next_cron_schedule record_cron_run get_cron run_in_transaction
      resolve_next_cron_execution_window delete_cron_schedule release_cron_schedule_lease
  process_next_cron_schedule lease_ms token s =
      process_claimed_schedule token
        (claim_next_cron_schedule comes_before s.now lease_ms token s.db.cron_schedules) s
