-- ===== src/Cron/Search/Total.antt =====
-- The look-ahead of eight years is enough: the search finds a time wherever the calendar has one.
use chimpbase.Prelude.{
  ℕ, ◌+◌, ◌/◌, ◌≤◌, ◌<◌, ◌≡◌, ◌⊎◌, inl, inr, true, false, some, In, arith, Bool-cases, Option-cases,
}
use chimpbase.Cron.Calendar.{days_in_month, day_of_week, utc}
use chimpbase.Cron.Calendar.Leap.{
  leap_after, leap_after_lem, leap_month, weekday_date, weekday_date_lem,
}
use chimpbase.Cron.Calendar.Order.{IsDay, days_in_month_bounds, day_number-lt_year}
use chimpbase.Cron.Calendar.Getters.{date_of_minutes_lem}
use chimpbase.Cron.Search.{ParsedCronExpression, next_fire_time}
use chimpbase.Cron.Search.Spec.{IsExpression, DayFires}
use chimpbase.Cron.Search.Dates.{utc-lt_day}
use chimpbase.Cron.Search.Next.{first_minute}
use chimpbase.Cron.Search.Results.{next_fire_time-none}

-- Some day of a month `m` of a leap year may fire: a weekday is named, or no day is restricted, or
-- one of the listed days of the month exists in it.
abbrev pub HasDay : ParsedCronExpression → ℕ → Type 0
HasDay p m =
    ((p.day_of_week.wildcard ≡ false) × ((w : ℕ) × In w p.day_of_week.values))
    ⊎ ((p.day_of_week.wildcard ≡ true) × (p.day_of_month.wildcard ≡ true))
    ⊎ ((p.day_of_week.wildcard ≡ true)
        × (p.day_of_month.wildcard ≡ false)
        × ((d : ℕ) × In d p.day_of_month.values × (d ≤ days_in_month 2000 m)))

module _ (p : ParsedCronExpression) (wf : IsExpression p) where
  weekday_fires :
      (y m d w : ℕ)
      → p.day_of_week.wildcard ≡ false
      → In w p.day_of_week.values
      → day_of_week y m d ≡ w
      → DayFires p y m d
  weekday_fires y m d w e i same = elim (Bool-cases p.day_of_month.wildcard) [
    | inl wild ↦ inr (inl (wild, e, rw same i))
    | inr restricted ↦ inr (inr (inr (restricted, e, inr (rw same i))))
  ]

  day_fires :
      (y m : ℕ)
      → HasDay p m
      → (d : ℕ) × DayFires p (leap_after y) m d × (1 ≤ d) × (d ≤ days_in_month (leap_after y) m)
  day_fires y m (inl (e, (w, i))) =
      let leap = leap_after y in
      let date = weekday_date_lem leap m w (wf.day_of_week.within w i).1 in
      (
        weekday_date leap m w,
        weekday_fires leap m (weekday_date leap m w) w e i date.2,
        date.0,
        omega (arith, date.1, days_in_month_bounds leap m),
      )
  day_fires y m (inr (inl (ew, em))) =
      (1, inl (em, ew), omega arith, omega (arith, days_in_month_bounds (leap_after y) m))
  day_fires y m (inr (inr (ew, em, (d, i, le)))) = (
    d,
    inr (inr (inl (em, ew, i))),
    (wf.day_of_month.within d i).0,
    rw (leap_month (leap_after y) m (leap_after_lem y).2) le,
  )

  after-lt_later_year :
      (after y m d h n : ℕ) → IsDay y m d → (first_minute after).year < y → after < utc y m d h n
  after-lt_later_year after y m d h n v lt =
      let f = first_minute after in
      let (day, time, start) = date_of_minutes_lem (after / 60000 + 1) in
      let later =
        utc-lt_day f.year f.month f.day f.hour f.minute y m d h n time.hour_high time.minute_high
          (day_number-lt_year f.year f.month f.day y m d day v lt) in
      omega arith

  -- If the expression names a minute, an hour and a month, and some day of that month in a leap
  -- year may fire, then the search finds a time, whatever time it starts after.
  pub next_fire_time-total :
      (after m h n : ℕ)
      → In m p.month.values
      → In h p.hour.values
      → In n p.minute.values
      → HasDay p m
      → (t : ℕ) × (next_fire_time p after ≡ some t)
  next_fire_time-total after m h n im ih i_n has_day =
      elim (Option-cases (next_fire_time p after)) [
        | inr found ↦ found
        | inl e ↦
            let start = (first_minute after).year in
            let year = (date_of_minutes_lem (after / 60000 + 1)).0.year_low in
            let y = leap_after start in
            let (later, near, _) = leap_after_lem start in
            let (d, fires, low, high) = day_fires start m has_day in
            let month = wf.month.within m im in
            let valid : IsDay y m d = record {
              year_low = omega arith;
              month_low = month.0;
              month_high = month.1;
              day_low = low;
              day_high = high;
            } in
            let far =
              next_fire_time-none p wf after e y m d h n
                (record {
                  is_day = valid;
                  is_time = record {
                    hour_high = omega (arith, (wf.hour.within h ih).1);
                    minute_high = omega (arith, (wf.minute.within n i_n).1);
                  };
                  month = im;
                  day = fires;
                  hour = ih;
                  minute = i_n;
                })
                (after-lt_later_year after y m d h n valid later) in
            absurd (omega arith)
      ]
