-- ===== src/Cron/Search/Next.antt =====
-- The loops over months and years, and the search as a whole, in terms of the loops' candidates.
use chimpbase.Prelude.{
  ℕ, ◌+◌, ◌/◌, ◌≤◌, ◌<◌, ◌≡◌, inl, inr, Bool, false, ◌&&◌, none, In, arith, subst, ltb, ◌==◌,
  Bool-cases, if◌then◌else◌,
}
use chimpbase.Cron.Calendar.{day_number, DateTime, date_of_minutes}
use chimpbase.Cron.Calendar.Order.{
  IsDay, days_in_month_bounds, day_number-lt_year, day_number-lt_month,
}
use chimpbase.Cron.Calendar.Getters.{IsTime, date_of_minutes_lem}
use chimpbase.Cron.Search.{
  ParsedCronExpression, range, cron_lookahead_years, day_loop, month_loop, year_loop,
  next_fire_time,
}
use chimpbase.Cron.Search.Least.{
  Least, Least-iff, first_some-Least, range-In, In-range, range-IsAscending,
}
use chimpbase.Cron.Search.Spec.{IsExpression}
use chimpbase.Cron.Search.Loops.{AtMinute, AtYear, month_ordered, year_ordered}
use chimpbase.Cron.Search.Dates.{Month, MonthPosition, utc-lt_day, day_loop-Least}

module _ (p : ParsedCronExpression) (s : DateTime) (wf : IsExpression p)
    (start_day : IsDay s.year s.month s.day) (start_time : IsTime s.hour s.minute) where
  abbrev AMonth : ℕ → ℕ → ℕ → Type 0
  AMonth = Month p s wf start_day start_time

  abbrev pub AYear : ℕ → ℕ → Type 0
  AYear = AtYear p s wf start_day start_time

  abbrev APosition : ℕ → ℕ → Bool → Type 0
  APosition = MonthPosition p s wf start_day start_time

  -- Nothing from the start on lies on a day before that of the start.
  too_early :
      (y m d h n t : ℕ)
      → AtMinute p s wf start_day start_time y m d h n t
      → day_number y m d < day_number s.year s.month s.day
      → ⊥
  too_early y m d h n t a lt =
      let later =
        utc-lt_day y m d h n s.year s.month s.day s.hour s.minute a.is_time.hour_high
          a.is_time.minute_high lt in
      let time = a.time in let from = a.from_start in omega arith

  first_of_month : (y m : ℕ) → 1970 ≤ y → 1 ≤ m → m ≤ 12 → IsDay y m 1
  first_of_month y m year low high = record {
    year_low = year;
    month_low = low;
    month_high = high;
    day_low = omega arith;
    day_high = omega (arith, days_in_month_bounds y m);
  }

  early_month :
      (y m d : ℕ)
      → IsDay y m d
      → y ≡ s.year
      → m < s.month
      → day_number y m d < day_number s.year s.month s.day
  early_month y m d v e lt =
      rw e
        (day_number-lt_month s.year m d s.month s.day (subst (λ z. IsDay z m d) e v) start_day lt)

  late_month :
      (y m d : ℕ)
      → IsDay y m d
      → y ≡ s.year
      → s.month < m
      → day_number s.year s.month s.day < day_number y m d
  late_month y m d v e lt =
      rw e
        (day_number-lt_month s.year s.month s.day m d start_day (subst (λ z. IsDay z m d) e v) lt)

  month_position :
      (y m : ℕ)
      → s.year ≤ y
      → IsDay y m 1
      → ((y == s.year) && ltb m s.month) ≡ false
      → APosition y m ((y == s.year) && (m == s.month))
  month_position y m le first e =
      let year = first.year_low in
      elim (Bool-cases (y == s.year)) [
        | inl same ↦
            let ey : y ≡ s.year = ground arith in
            elim (Bool-cases (m == s.month)) [
              | inl em ↦ inl (ground arith, ey, ground arith)
              | inr em ↦ inr (ground arith, year, late_month y m 1 first ey (ground arith))
            ]
        | inr other ↦ inr (
          ground arith,
          year,
          day_number-lt_year s.year s.month s.day y m 1 start_day first (ground arith),
        )
      ]

  month_body :
      (y m : ℕ)
      → s.year ≤ y
      → In m p.month.values
      → Least (AMonth y m) (if (y == s.year) && ltb m s.month then none else day_loop p s y m)
  month_body y m le i =
      let bounds = wf.month.within m i in
      let year = start_day.year_low in
      let first = first_of_month y m (omega arith) bounds.0 bounds.1 in
      elim (Bool-cases ((y == s.year) && ltb m s.month)) [
        | inl e ↦ rw e (λ t (d, (_, (h, _, (n, _, a)))).
            too_early y m d h n t a (early_month y m d a.is_day (ground arith) (ground arith)))
        | inr e ↦ rw e (
            day_loop-Least p s wf start_day start_time y m (omega arith) bounds.0 bounds.1
              (month_position y m le first e))
      ]

  month_loop-Least : (y : ℕ) → s.year ≤ y → Least (AYear y) (month_loop p s y)
  unfolding month_loop
  month_loop-Least y le =
      first_some-Least _ (AMonth y) (month_ordered p s wf start_day start_time y) p.month.values
        wf.month.sorted (λ m i. month_body y m le i)

  pub year_loop-Least :
      Least (λ t. (y : ℕ) × (y ≤ s.year + cron_lookahead_years) × AYear y t) (year_loop p s)
  unfolding year_loop
  year_loop-Least =
      let last = s.year + cron_lookahead_years in
      Least-iff _ _ (year_loop p s) (λ t (y, i, a). (y, (range-In s.year last y i).1, a))
        (λ t (y, le, a).
          let (m, _, (d, (_, (h, _, (n, _, leaf))))) = a in
          (
            y,
            In-range s.year last y
                (elim (Bool-cases (ltb y s.year)) [
                  | inl e ↦ absurd (
                      too_early y m d h n t leaf (
                        day_number-lt_year y m d s.year s.month s.day leaf.is_day start_day
                          (ground arith)))
                  | inr e ↦ ground arith
                ])
                le,
            a,
          ))
        (first_some-Least _ AYear (year_ordered p s wf start_day start_time) (range s.year last)
          (range-IsAscending s.year last) (λ y i. month_loop-Least y (range-In s.year last y i).0))

-- The first whole minute after a time.
abbrev pub first_minute : ℕ → DateTime
first_minute after = date_of_minutes (after / 60000 + 1)

module _ (p : ParsedCronExpression) (wf : IsExpression p) (after : ℕ) where
  pub search-Least :
      Least
        (λ t.
          (y : ℕ) × (y ≤ (first_minute after).year + cron_lookahead_years)
          × AYear p
              (first_minute after)
              wf
              (date_of_minutes_lem (after / 60000 + 1)).0
              (date_of_minutes_lem (after / 60000 + 1)).1
              y
              t)
        (next_fire_time p after)
  unfolding next_fire_time
  search-Least =
      let v = date_of_minutes_lem (after / 60000 + 1) in
      year_loop-Least p (first_minute after) wf v.0 v.1
