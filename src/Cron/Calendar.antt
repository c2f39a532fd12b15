-- ===== src/Cron/Calendar.antt =====
-- What core/cron.ts uses of the built-in UTC `Date`.
pub mod Order
pub mod Getters
pub mod Leap
use chimpbase.Prelude.{
  ℕ, zero, suc, ◌+◌, ◌-◌, ◌*◌, ◌/◌, ◌%◌, Bool, not, ◌&&◌, ◌||◌, ltb, ◌==◌, if◌then◌else◌,
}

pub is_leap : ℕ → Bool
is_leap y = (y % 4 == 0) && (not (y % 100 == 0) || (y % 400 == 0))

pub days_in_year : ℕ → ℕ
unfolding is_leap
days_in_year y = if is_leap y then 366 else 365

unfoldable pub days_in_month : ℕ → ℕ → ℕ
unfolding is_leap
days_in_month y m =
    if m == 2
    then (if is_leap y then 29 else 28)
    else if (m == 11) || (m == 9) || (m == 6) || (m == 4)
    then 30
    else 31

-- The day number of 1 January of the year 1970 + n.
years_start : ℕ → ℕ
years_start zero = 0
years_start (suc n) = years_start n + days_in_year (1970 + n)

pub year_start : ℕ → ℕ
year_start y = years_start (y - 1970)

-- Days of the year before the month, which counts from 1.
pub month_start : ℕ → ℕ → ℕ
month_start y zero = 0
month_start y (suc zero) = 0
month_start y (suc (suc m)) = month_start y (suc m) + days_in_month y (suc m)

unfoldable pub day_number : ℕ → ℕ → ℕ → ℕ
unfolding year_start years_start month_start days_in_month days_in_year
day_number y m d = year_start y + month_start y m + d - 1

-- `Date.UTC(y, m - 1, d, h, n, 0, 0)`
unfoldable pub utc : ℕ → ℕ → ℕ → ℕ → ℕ → ℕ
unfolding day_number
utc y m d h n = ((day_number y m d * 24 + h) * 60 + n) * 60000

-- `getUTCDay`: 1 January 1970 was a Thursday.
unfoldable pub day_of_week : ℕ → ℕ → ℕ → ℕ
unfolding day_number
day_of_week y m d = (day_number y m d + 4) % 7

-- The year and the day in it, by counting years up from `y`.
pub split_year : ℕ → ℕ → ℕ → ℕ × ℕ
split_year zero y days = (y, days)
split_year (suc fuel) y days =
    let later = split_year fuel (y + 1) (days - days_in_year y) in
    if ltb days (days_in_year y) then (y, days) else later

-- The month and the day of the month, by counting months up from `m`.
pub split_month : ℕ → ℕ → ℕ → ℕ → ℕ × ℕ
split_month zero y m days = (m, days + 1)
split_month (suc fuel) y m days =
    let later = split_month fuel y (m + 1) (days - days_in_month y m) in
    if ltb days (days_in_month y m) then (m, days + 1) else later

pub record DateTime : Type 0 where
  pub year : ℕ
  pub month : ℕ
  pub day : ℕ
  pub hour : ℕ
  pub minute : ℕ

-- The getters of the `Date` that stands at a whole minute.
unfoldable pub date_of_minutes : ℕ → DateTime
unfolding split_year split_month days_in_year days_in_month
date_of_minutes t =
    let (y, r) = split_year (t / 1440) 1970 (t / 1440) in
    let (m, d) = split_month 11 y 1 r in
    record { year = y; month = m; day = d; hour = t / 60 % 24; minute = t % 60 }
