-- ===== src/Schedules.antt =====
-- The tables `_chimpbase_cron_schedules` and `_chimpbase_cron_runs` as packages/bun/src/sqlite_adapter.ts
-- reads and writes them. `comes_before` is the order that the database gives the names in an
-- `ORDER BY schedule_name`.
pub mod Claim
pub mod Rows
use chimpbase.Prelude.{
  ℕ, ◌+◌, String, Bool, true, false, ◌&&◌, ◌||◌, Option, none, some, List, [], ◌∷◌, ◌++◌, leb, ltb,
  ◌==◌, str_eq, if◌then◌else◌,
}
use chimpbase.Text.{Text}

pub record CronSchedule : Type 0 where
  pub schedule_name : String
  pub cron_expression : Text
  pub next_fire_at_ms : ℕ
  pub lease_token : Option String
  pub lease_expires_at_ms : Option ℕ

abbrev pub ScheduleTable : Type 0
ScheduleTable = List CronSchedule

-- A row of `_chimpbase_cron_runs`.
abbrev pub CronRun : Type 0
CronRun = String × ℕ

abbrev pub expired_by : Option ℕ → ℕ → Bool
expired_by none now = true
expired_by (some lease) now = leb lease now

-- `lease_token IS NULL OR lease_expires_at_ms IS NULL OR lease_expires_at_ms <= now`
abbrev pub is_free_at : Option String → Option ℕ → ℕ → Bool
is_free_at none lease now = true
is_free_at (some token) lease now = expired_by lease now

unfoldable pub is_claimable : ℕ → CronSchedule → Bool
is_claimable now row =
    leb row.next_fire_at_ms now && is_free_at row.lease_token row.lease_expires_at_ms now

module _ (comes_before : String → String → Bool) where
  -- `ORDER BY next_fire_at_ms ASC, schedule_name ASC`
  abbrev pub precedes : CronSchedule → CronSchedule → Bool
  precedes a b =
      ltb a.next_fire_at_ms b.next_fire_at_ms
      || ((a.next_fire_at_ms == b.next_fire_at_ms) && comes_before a.schedule_name b.schedule_name)

  abbrev pub better : CronSchedule → Option CronSchedule → CronSchedule
  better row none = row
  better row (some other) = if precedes other row then other else row

  unfoldable pub first_claimable : ℕ → ScheduleTable → Option CronSchedule
  unfolding is_claimable
  first_claimable now [] = none
  first_claimable now (row ∷ rows) =
      let rest = first_claimable now rows in
      if is_claimable now row then some (better row rest) else rest

-- `UPDATE ... WHERE`: whether a row changed, and the table after it.
unfoldable pub update_schedules :
    (CronSchedule → Bool) → (CronSchedule → CronSchedule) → ScheduleTable → Bool × ScheduleTable
update_schedules p f [] = (false, [])
update_schedules p f (row ∷ rows) =
    let (changed, rest) = update_schedules p f rows in
    if p row then (true, f row ∷ rest) else (changed, row ∷ rest)

abbrev pub leased : String → ℕ → CronSchedule → CronSchedule
leased token expires row = record row {
  lease_token = some token;
  lease_expires_at_ms = some expires;
}

abbrev pub unleased : CronSchedule → CronSchedule
unleased row = record row { lease_token = none; lease_expires_at_ms = none }

abbrev pub has_token : String → Option String → Bool
has_token token none = false
has_token token (some t) = str_eq t token

-- `token` is the platform's random UUID.
unfoldable pub claim_next_cron_schedule :
    (String → String → Bool) → ℕ → ℕ → String → ScheduleTable → Option CronSchedule × ScheduleTable
unfolding first_claimable update_schedules
claim_next_cron_schedule comes_before now lease_ms token rows =
    elim (first_claimable comes_before now rows) [
      | none ↦ (none, rows)
      | some schedule ↦
          let (changed, rows') =
            update_schedules
              (λ row.
                str_eq row.schedule_name schedule.schedule_name
                && ((row.next_fire_at_ms == schedule.next_fire_at_ms)
                    && is_free_at row.lease_token row.lease_expires_at_ms now))
              (leased token (now + lease_ms)) rows in
          if changed
          then (some (record schedule { lease_token = some token }), rows')
          else (none, rows)
    ]

-- The update of `advanceCronSchedule`, which throws if no row changed.
unfoldable pub advance_cron_schedule :
    String → ℕ → ℕ → String → ScheduleTable → Bool × ScheduleTable
unfolding update_schedules
advance_cron_schedule name fire_at_ms next_fire_at_ms token rows =
    update_schedules
      (λ row.
        str_eq row.schedule_name name
        && ((row.next_fire_at_ms == fire_at_ms) && has_token token row.lease_token))
      (λ row. record (unleased row) { next_fire_at_ms = next_fire_at_ms }) rows

unfoldable pub release_cron_schedule_lease : String → String → ScheduleTable → ScheduleTable
unfolding update_schedules
release_cron_schedule_lease name token rows =
    (update_schedules (λ row. str_eq row.schedule_name name && has_token token row.lease_token)
      unleased rows).1

unfoldable pub delete_cron_schedule : String → ScheduleTable → ScheduleTable
delete_cron_schedule name [] = []
delete_cron_schedule name (row ∷ rows) =
    let rest = delete_cron_schedule name rows in
    if str_eq row.schedule_name name then rest else row ∷ rest

-- Whether the run is new, and the table with it.
unfoldable pub has_run : String → ℕ → List CronRun → Bool
has_run name fire_at_ms [] = false
has_run name fire_at_ms ((n, t) ∷ runs) =
    (str_eq n name && (t == fire_at_ms)) || has_run name fire_at_ms runs

unfoldable pub insert_cron_run : String → ℕ → List CronRun → Bool × List CronRun
unfolding has_run
insert_cron_run name fire_at_ms runs =
    if has_run name fire_at_ms runs then (false, runs) else (true, runs ++ (name, fire_at_ms) ∷ [])

unfoldable pub upsert_cron_schedule : String → Text → ℕ → ScheduleTable → ScheduleTable
unfolding update_schedules
upsert_cron_schedule name expression next_fire_at_ms rows =
    let fresh : CronSchedule = record {
      schedule_name = name;
      cron_expression = expression;
      next_fire_at_ms = next_fire_at_ms;
      lease_token = none;
      lease_expires_at_ms = none;
    } in
    let (changed, rows') =
      update_schedules (λ row. str_eq row.schedule_name name) (λ row. fresh) rows in
    if changed then rows' else rows ++ fresh ∷ []
