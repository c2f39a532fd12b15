-- ===== src/Cron/Expression.antt =====
-- `parseCronExpression` and `computeNextCronFireTime` of core/cron.ts, with the cache of parsed
-- expressions as state, and `resolveNextCronExecutionWindow` of core/engine.ts.
pub mod Parsed
pub mod FireTime
pub mod Window
use chimpbase.Prelude.{
  ℕ, zero, suc, ◌+◌, Bool, true, false, Option, none, some, List, [], ◌∷◌, leb, ◌==◌, if◌then◌else◌,
}
use chimpbase.Prelude.Result.{Result, ok, err, ◌>>=◌}
use chimpbase.Text.{Text, trim, collapse, split, text_eq}
use chimpbase.Cron.Search.{ParsedCronField, ParsedCronExpression, next_fire_time}
use chimpbase.Cron.Field.{
  CronError, field_count, no_fire_time, FieldOptions, Number, parse_cron_field,
}

-- `(value) => value === 7 ? 0 : value`
unfoldable pub normalize_weekday : ℕ → ℕ
normalize_weekday value = if value == 7 then 0 else value

abbrev pub no_options : FieldOptions
no_options = record { max_input_value = none; normalize_value = none }

abbrev pub weekday_options : FieldOptions
weekday_options = record { max_input_value = some 7; normalize_value = some normalize_weekday }

abbrev pub Cache : Type 0
Cache = List (Text × ParsedCronExpression)

-- `Map.get`; an entry is only added where there is none.
unfoldable pub cache_get : Text → Cache → Option ParsedCronExpression
unfolding text_eq
cache_get key [] = none
cache_get key ((k, parsed) ∷ rest) = if text_eq k key then some parsed else cache_get key rest

unfoldable pub normalize_expression : Text → Text
unfolding collapse trim
normalize_expression expression = collapse false (trim expression)

module _ (other : Number) where
  -- The five fields; the object literal evaluates them in this order.
  pub five_fields : List Text → Result CronError ParsedCronExpression
  five_fields (a ∷ b ∷ c ∷ d ∷ e ∷ []) = do
    minute ← parse_cron_field other 0 59 no_options a
    hour ← parse_cron_field other 0 23 no_options b
    day_of_month ← parse_cron_field other 1 31 no_options c
    month ← parse_cron_field other 1 12 no_options d
    day_of_week ← parse_cron_field other 0 6 weekday_options e
    ok (record {
      minute = minute;
      hour = hour;
      day_of_month = day_of_month;
      month = month;
      day_of_week = day_of_week;
    })
  five_fields parts = err field_count

  unfoldable pub parse_fields : Text → Result CronError ParsedCronExpression
  unfolding split five_fields parse_cron_field normalize_weekday
  parse_fields normalized = five_fields (split b' ' normalized)

  unfoldable pub parse_cron_expression :
      Cache → Text → Result CronError ParsedCronExpression × Cache
  unfolding cache_get normalize_expression parse_fields
  parse_cron_expression cache expression =
      let normalized = normalize_expression expression in
      elim (cache_get normalized cache) [
        | some cached ↦ (ok cached, cache)
        | none ↦ elim (parse_fields normalized) [
          | ok parsed ↦ (ok parsed, (normalized, parsed) ∷ cache)
          | err e ↦ (err e, cache)
        ]
      ]

  fire_time_of : ParsedCronExpression → ℕ → Result CronError ℕ
  fire_time_of parsed after = elim (next_fire_time parsed after) [
    | some t ↦ ok t
    | none ↦ err no_fire_time
  ]

  unfoldable pub compute_next_cron_fire_time : Cache → Text → ℕ → Result CronError ℕ × Cache
  unfolding parse_cron_expression fire_time_of
  compute_next_cron_fire_time cache expression after =
      let (parsed, cache') = parse_cron_expression cache expression in
      (parsed >>= λ p. fire_time_of p after, cache')

  -- The `while` of `resolveNextCronExecutionWindow`; `none` means that the fuel ran out.
  unfoldable pub window_loop :
      ℕ → Text → ℕ → Cache → ℕ → ℕ → Option (Result CronError (ℕ × ℕ) × Cache)
  window_loop zero schedule now cache fire next = none
  window_loop (suc fuel) schedule now cache fire next = elim (leb next now) [
    | false ↦ some (ok (fire, next), cache)
    | true ↦
        let (computed, cache') = compute_next_cron_fire_time cache schedule next in
        elim computed [
          | ok later ↦ window_loop fuel schedule now cache' next later
          | err e ↦ some (err e, cache')
        ]
  ]

  -- The fuel covers every whole minute up to `now`.
  unfoldable pub resolve_next_cron_execution_window :
      Cache → Text → ℕ → ℕ → Option (Result CronError (ℕ × ℕ) × Cache)
  resolve_next_cron_execution_window cache schedule persisted now =
      let (computed, cache') = compute_next_cron_fire_time cache schedule persisted in
      elim computed [
        | ok next ↦ window_loop (suc now) schedule now cache' persisted next
        | err e ↦ some (err e, cache')
      ]
