-- ===== src/Cron/Tests.antt =====
-- Runs of the cron parser and of the search, and the theorems at concrete inputs.
use Prim.Native.Char.{code}
use Prim.Native.String.{String}
use chimpbase.Prelude.{
  ℕ, zero, suc, ◌+◌, ◌≡◌, refl, ◌↔◌, ◌⊎◌, true, false, none, some, List, [], ◌∷◌, inl, arith, In,
}
use chimpbase.Prelude.Result.{Result, ok, err}
use chimpbase.Text.{Text}
use chimpbase.Cron.Search.{ParsedCronExpression, next_fire_time}
use chimpbase.Cron.Field.{
  CronError, out_of_range, no_fire_time, range_not_ascending, Number, apply_normalize,
  normalize_cron_value, add_values,
}
use chimpbase.Cron.Expression.{
  normalize_expression, parse_fields, parse_cron_expression, compute_next_cron_fire_time,
  resolve_next_cron_execution_window, normalize_weekday,
}
use chimpbase.Cron.Expression.Parsed.{IsParsed, IsCoherent}
use chimpbase.Cron.Expression.Parsed
use chimpbase.Cron.Expression.FireTime.{IsNext, CanFire}
use chimpbase.Cron.Expression.FireTime
use chimpbase.Cron.Expression.Window
use chimpbase.Cron.Field.Values

abbrev text : String → Text
text String.[] = []
text (String.◌∷◌ c s) = code c ∷ text s

-- `Number` gives nothing on text that is neither blank nor a run of digits.
abbrev no_number : Number
no_number t = none

-- 2026-01-01T00:00:00Z
abbrev new_year : ℕ
new_year = 1767225600000

abbrev fire : String → ℕ → Result CronError ℕ
fire expression after = (compute_next_cron_fire_time no_number [] (text expression) after).0

every_quarter : fire "*/15 * * * *" new_year ≡ ok 1767226500000
unfolding compute_next_cron_fire_time next_fire_time
every_quarter = refl

-- Monday, 5 January 2026, 09:30.
weekdays : fire " 30  9 * * 1 " new_year ≡ ok 1767605400000
unfolding compute_next_cron_fire_time next_fire_time
weekdays = refl

sunday_as_seven : fire "0 0 * * 7" new_year ≡ fire "0 0 * * 0" new_year
unfolding compute_next_cron_fire_time next_fire_time
sunday_as_seven = refl

-- 29 February 2028.
leap_day : fire "0 0 29 2 *" new_year ≡ ok 1835395200000
unfolding compute_next_cron_fire_time next_fire_time
leap_day = refl

never : fire "0 0 30 2 *" new_year ≡ err no_fire_time
unfolding compute_next_cron_fire_time next_fire_time
never = refl

too_large : fire "60 * * * *" new_year ≡ err out_of_range
unfolding compute_next_cron_fire_time next_fire_time
too_large = refl

descending : fire "9-5 * * * *" new_year ≡ err range_not_ascending
unfolding compute_next_cron_fire_time next_fire_time
descending = refl

-- Weekdays 1 to 5 at 09:30, written with a list and a step.
abbrev schedule : Text
schedule = text "30 9 * * 1-5"

abbrev workdays : ParsedCronExpression
workdays = record {
  minute = record { value_set = 30 ∷ []; values = 30 ∷ []; wildcard = false };
  hour = record { value_set = 9 ∷ []; values = 9 ∷ []; wildcard = false };
  day_of_month = record { value_set = count_to 31; values = count_to 31; wildcard = true };
  month = record { value_set = count_to 12; values = count_to 12; wildcard = true };
  day_of_week = record { value_set = count_to 5; values = count_to 5; wildcard = false };
}
  where
    up_from : ℕ → ℕ → List ℕ
    up_from zero a = []
    up_from (suc n) a = a ∷ up_from n (a + 1)

    count_to : ℕ → List ℕ
    count_to n = up_from n 1

workdays_parse : parse_fields no_number (normalize_expression schedule) ≡ ok workdays
unfolding parse_fields normalize_expression
workdays_parse = refl

next_workday : (compute_next_cron_fire_time no_number [] schedule new_year).0 ≡ ok 1767259800000
unfolding compute_next_cron_fire_time next_fire_time
next_workday = refl

compute_next_cron_fire_time-IsNext_example : IsNext workdays new_year 1767259800000
compute_next_cron_fire_time-IsNext_example =
    FireTime.compute_next_cron_fire_time-IsNext no_number [] schedule workdays tt workdays_parse
      new_year 1767259800000 next_workday

compute_next_cron_fire_time-total_example :
    ((t : ℕ) × ((compute_next_cron_fire_time no_number [] schedule new_year).0 ≡ ok t))
    ↔ CanFire workdays
compute_next_cron_fire_time-total_example =
    FireTime.compute_next_cron_fire_time-total no_number [] schedule workdays tt workdays_parse
      new_year

resolve_window-Ends_example :
    Window.Ends no_number schedule workdays workdays_parse
      (inl refl)
      1767259800000
      1767700000000
      (resolve_next_cron_execution_window no_number [] schedule 1767259800000 1767700000000)
resolve_window-Ends_example =
    Window.resolve_window-Ends no_number schedule workdays workdays_parse (inl refl) 1767259800000
      1767700000000 [] tt (omega arith)

parse_fields-IsParsed_example : IsParsed workdays
parse_fields-IsParsed_example =
    Parsed.parse_fields-IsParsed no_number (normalize_expression schedule) workdays workdays_parse

parse_cron_expression-eq-parse_fields_example :
    ((parse_cron_expression no_number
        ((text "30 9 * * 1-5", workdays) ∷ [])
        (text " 30 9  * * 1-5")).0
      ≡ parse_fields no_number (normalize_expression (text " 30 9  * * 1-5")))
    × IsCoherent no_number
        (parse_cron_expression no_number
          ((text "30 9 * * 1-5", workdays) ∷ [])
          (text " 30 9  * * 1-5")).1
unfolding normalize_expression
parse_cron_expression-eq-parse_fields_example =
    Parsed.parse_cron_expression-eq-parse_fields no_number ((text "30 9 * * 1-5", workdays) ∷ [])
      (text " 30 9  * * 1-5") (workdays_parse, tt)

add_values-In_example : In {A = ℕ} 0 (5 ∷ 0 ∷ []) ↔ (
    In {A = ℕ} 0 []
    ⊎ ((x : ℕ) × Values.Stepped 0 6 7 (some normalize_weekday) 5 7 2 x
        × (◌≡◌ {A = ℕ} 0 (apply_normalize (some normalize_weekday) x))))
unfolding add_values normalize_weekday normalize_cron_value
add_values-In_example =
    Values.add_values-In 0 6 7 (some normalize_weekday) 3 5 7 2 [] (5 ∷ 0 ∷ []) (omega arith)
      (omega arith) refl 0
