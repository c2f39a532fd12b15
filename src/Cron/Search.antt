-- ===== src/Cron/Search.antt =====
-- `computeNextCronFireTime` of core/cron.ts on a parsed expression, and `matchesDay`. Times are
-- milliseconds since 1970 and not negative; a fire time beyond the range of `Date` is not modelled.
pub mod Spec
pub mod Least
pub mod Loops
pub mod Dates
pub mod Next
pub mod Results
pub mod Total
use chimpbase.Prelude.{
  ℕ, zero, suc, ◌+◌, ◌-◌, ◌/◌, Bool, true, false, ◌&&◌, ◌||◌, Option, none, some, List, [], ◌∷◌,
  ltb, ◌==◌, if◌then◌else◌,
}
use chimpbase.Cron.Calendar.{days_in_month, day_of_week, utc, DateTime, date_of_minutes}

-- `value_set` lists the set in the order of insertion, `values` in ascending order.
pub record ParsedCronField : Type 0 where
  pub value_set : List ℕ
  pub values : List ℕ
  pub wildcard : Bool

pub record ParsedCronExpression : Type 0 where
  pub minute : ParsedCronField
  pub hour : ParsedCronField
  pub day_of_month : ParsedCronField
  pub month : ParsedCronField
  pub day_of_week : ParsedCronField

-- `Set.has`
unfoldable pub has : List ℕ → ℕ → Bool
has [] v = false
has (x ∷ xs) v = (x == v) || has xs v

unfoldable pub matches_day : ParsedCronExpression → ℕ → ℕ → ℕ → Bool
unfolding has
matches_day parsed y m d =
    let day_of_month_matches = has parsed.day_of_month.value_set d in
    let day_of_week_matches = has parsed.day_of_week.value_set (day_of_week y m d) in
    if parsed.day_of_month.wildcard && parsed.day_of_week.wildcard
    then true
    else if parsed.day_of_month.wildcard
    then day_of_week_matches
    else if parsed.day_of_week.wildcard
    then day_of_month_matches
    else day_of_month_matches || day_of_week_matches

-- A loop over `xs` that returns from its body where `f` has a value, and goes on where it has none.
pub first_some : (ℕ → Option ℕ) → List ℕ → Option ℕ
first_some f [] = none
first_some f (x ∷ xs) = let rest = first_some f xs in elim (f x) [ none ↦ rest | some r ↦ some r ]

pub count_up : ℕ → ℕ → List ℕ
count_up zero a = []
count_up (suc n) a = a ∷ count_up n (a + 1)

-- `for (i = first; i <= last; i += 1)`
unfoldable pub range : ℕ → ℕ → List ℕ
unfolding count_up
range first last = count_up (last + 1 - first) first

abbrev pub cron_lookahead_years : ℕ
cron_lookahead_years = 8

module _ (parsed : ParsedCronExpression) (start : DateTime) where
  pub minute_loop : ℕ → ℕ → ℕ → ℕ → Bool → Option ℕ
  minute_loop y m d h same_hour =
      first_some (λ n. if same_hour && ltb n start.minute then none else some (utc y m d h n))
        parsed.minute.values

  pub hour_loop : ℕ → ℕ → ℕ → Bool → Option ℕ
  hour_loop y m d same_day =
      first_some
        (λ h.
          if same_day && ltb h start.hour
          then none
          else minute_loop y m d h (same_day && (h == start.hour)))
        parsed.hour.values

  pub day_loop : ℕ → ℕ → Option ℕ
  day_loop y m =
      let same_month = (y == start.year) && (m == start.month) in
      first_some
        (λ d.
          if matches_day parsed y m d
          then hour_loop y m d (same_month && (d == start.day))
          else none)
        (range (if same_month then start.day else 1) (days_in_month y m))

  pub month_loop : ℕ → Option ℕ
  month_loop y =
      first_some (λ m. if (y == start.year) && ltb m start.month then none else day_loop y m)
        parsed.month.values

  pub year_loop : Option ℕ
  year_loop = first_some month_loop (range start.year (start.year + cron_lookahead_years))

-- The first whole minute after `after_ms`, and the search from there. `none` is the final throw.
unfoldable pub next_fire_time : ParsedCronExpression → ℕ → Option ℕ
unfolding date_of_minutes utc day_of_week days_in_month matches_day first_some range minute_loop
    hour_loop day_loop month_loop year_loop
next_fire_time parsed after_ms = year_loop parsed (date_of_minutes (after_ms / 60000 + 1))
