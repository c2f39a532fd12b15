-- ===== src/Cron/Calendar/Leap.antt =====
-- Leap years return within eight years, and each weekday within the first week of a month.
use chimpbase.Prelude.{ℕ, ◌+◌, ◌-◌, ◌*◌, ◌/◌, ◌%◌, ◌≤◌, ◌<◌, ◌≡◌, true, arith, if◌then◌else◌}
use chimpbase.Cron.Calendar.{is_leap, days_in_month, day_number, day_of_week}

pub leap_after : ℕ → ℕ
leap_after y = let next = (y / 4 + 1) * 4 in if is_leap next then next else next + 4

pub leap_after_lem :
    (y : ℕ) → (y < leap_after y) × (leap_after y ≤ y + 8) × (is_leap (leap_after y) ≡ true)
unfolding leap_after is_leap
leap_after_lem y = ground arith

pub leap_month : (y m : ℕ) → is_leap y ≡ true → days_in_month y m ≡ days_in_month 2000 m
unfolding days_in_month
leap_month y m e = ground arith

pub weekday_date : ℕ → ℕ → ℕ → ℕ
weekday_date y m w = 1 + (w + 7 - day_of_week y m 1) % 7

pub weekday_date_lem :
    (y m w : ℕ)
    → w ≤ 6
    → (1 ≤ weekday_date y m w)
      × (weekday_date y m w ≤ 7)
      × (day_of_week y m (weekday_date y m w) ≡ w)
unfolding weekday_date day_of_week day_number
weekday_date_lem y m w h = omega arith

-- A leap year's month is as long as that month of any year, or longer.
pub days_in_month-le_leap : (y m : ℕ) → days_in_month y m ≤ days_in_month 2000 m
unfolding days_in_month
days_in_month-le_leap y m = ground arith
