-- ===== src/Cron/Calendar/Getters.antt =====
-- The getters of a `Date` give the fields from which `Date.UTC` made it.
use chimpbase.Prelude.{
  ℕ, zero, suc, ◌+◌, ◌-◌, ◌*◌, ◌/◌, ◌≤◌, ◌<◌, ◌≡◌, refl, inl, inr, ltb, arith, Bool-cases,
}
use chimpbase.Cron.Calendar.{
  days_in_month, days_in_year, year_start, month_start, day_number, utc, split_year, split_month,
  date_of_minutes,
}
use chimpbase.Cron.Calendar.Order.{
  IsDay, days_in_year_low, year_start-suc, year_start-epoch, month_start-suc, month_start-year,
}

pub record IsTime (h n : ℕ) : Type 0 where
  pub hour_high : h < 24
  pub minute_high : n < 60

split_year_lem :
    (fuel y days : ℕ)
    → 1970 ≤ y
    → days ≤ fuel
    → (y ≤ (split_year fuel y days).0)
      × ((split_year fuel y days).1 < days_in_year (split_year fuel y days).0)
      × (year_start (split_year fuel y days).0 + (split_year fuel y days).1 ≡ year_start y + days)
unfolding split_year
split_year_lem zero y days h k = (omega arith, omega (arith, days_in_year_low y), omega arith)
split_year_lem (suc fuel) y days h k =
    let low = days_in_year_low y in
    elim (Bool-cases (ltb days (days_in_year y))) [
      | inl e ↦ rw e (omega arith, ground arith, omega arith)
      | inr e ↦
          let ih =
            split_year_lem fuel (y + 1) (days - days_in_year y) (omega arith) (ground arith) in
          rw e (omega (arith, ih.0), ih.1, ground (arith, ih.2, year_start-suc y h))
    ]

split_month_lem :
    (fuel y m days : ℕ)
    → 1 ≤ m
    → m + fuel ≡ 12
    → month_start y m + days < days_in_year y
    → (m ≤ (split_month fuel y m days).0)
      × ((split_month fuel y m days).0 ≤ 12)
      × (1 ≤ (split_month fuel y m days).1)
      × ((split_month fuel y m days).1 ≤ days_in_month y (split_month fuel y m days).0)
      × (month_start y (split_month fuel y m days).0 + (split_month fuel y m days).1
          ≡ month_start y m + days + 1)
unfolding split_month
split_month_lem zero y m days h k room =
    let e : m ≡ 12 = omega arith in
    let last : month_start y 13 ≡ month_start y m + days_in_month y m =
      rw e (month_start-suc y 12 (omega arith)) in
    (omega arith, omega arith, omega arith, omega (arith, month_start-year y), omega arith)
split_month_lem (suc fuel) y m days h k room = elim (Bool-cases (ltb days (days_in_month y m))) [
  | inl e ↦ rw e (omega arith, omega arith, omega arith, ground arith, omega arith)
  | inr e ↦
      let step : month_start y (m + 1) ≡ month_start y m + days_in_month y m =
        let e1 : m + 1 ≡ suc m = omega arith in rw e1 (month_start-suc y m h) in
      let ih =
        split_month_lem fuel y (m + 1) (days - days_in_month y m) (omega arith) (omega arith)
          (ground arith) in
      rw e (omega (arith, ih.0), ih.1, ih.2, ih.3, ground (arith, ih.4))
]

-- The fields of the date at minute `t` are those of the calendar, and `Date.UTC` of them is `t`.
pub date_of_minutes_lem :
    (t : ℕ)
    → let f = date_of_minutes t in
      IsDay f.year f.month f.day
      × IsTime f.hour f.minute
      × (utc f.year f.month f.day f.hour f.minute ≡ t * 60000)
unfolding date_of_minutes utc day_number month_start
date_of_minutes_lem t =
    let days = t / 1440 in
    let a = split_year_lem days 1970 days (omega arith) (omega arith) in
    let y = (split_year days 1970 days).0 in
    let b = split_month_lem 11 y 1 (split_year days 1970 days).1 (omega arith) refl (omega arith) in
    (
      record { year_low = a.0; month_low = b.0; month_high = b.1; day_low = b.2; day_high = b.3 },
      record { hour_high = omega arith; minute_high = omega arith },
      omega (arith, a.2, b.4, year_start-epoch),
    )
