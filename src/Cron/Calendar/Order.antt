-- ===== src/Cron/Calendar/Order.antt =====
-- Day numbers follow the calendar's order, and the getters of a `Date` invert `Date.UTC`.
use chimpbase.Prelude.{ℕ, zero, suc, ◌+◌, ◌-◌, ◌≤◌, ◌<◌, ◌≡◌, refl, arith}
use chimpbase.Cron.Calendar.{
  days_in_month, days_in_year, years_start, year_start, month_start, day_number,
}

-- The date is one of the calendar, from 1970 on.
pub record IsDay (y m d : ℕ) : Type 0 where
  pub year_low : 1970 ≤ y
  pub month_low : 1 ≤ m
  pub month_high : m ≤ 12
  pub day_low : 1 ≤ d
  pub day_high : d ≤ days_in_month y m

pub days_in_month_bounds : (y m : ℕ) → (28 ≤ days_in_month y m) × (days_in_month y m ≤ 31)
unfolding days_in_month
days_in_month_bounds y m = ground arith

pub month_start-suc :
    (y m : ℕ) → 1 ≤ m → month_start y (suc m) ≡ month_start y m + days_in_month y m
unfolding month_start
month_start-suc y zero h = absurd (omega arith)
month_start-suc y (suc m) h = refl

pub month_start-year : (y : ℕ) → month_start y 13 ≡ days_in_year y
unfolding month_start days_in_month days_in_year
month_start-year y = ground arith

pub days_in_year_low : (y : ℕ) → 365 ≤ days_in_year y
unfolding days_in_year
days_in_year_low y = ground arith

pub year_start-epoch : year_start 1970 ≡ 0
unfolding year_start years_start
year_start-epoch = refl

years_start-suc : (n : ℕ) → years_start (suc n) ≡ years_start n + days_in_year (1970 + n)
unfolding years_start
years_start-suc n = refl

pub year_start-suc : (y : ℕ) → 1970 ≤ y → year_start (y + 1) ≡ year_start y + days_in_year y
unfolding year_start
year_start-suc y h =
    let e : y + 1 - 1970 ≡ suc (y - 1970) = omega arith in
    let e' : 1970 + (y - 1970) ≡ y = omega arith in rw e (rw (years_start-suc (y - 1970), e'))

year_start_mono_by : (k y : ℕ) → 1970 ≤ y → year_start y + days_in_year y ≤ year_start (y + 1 + k)
year_start_mono_by zero y h =
    let e : y + 1 + 0 ≡ y + 1 = omega arith in rw e (omega (arith, year_start-suc y h))
year_start_mono_by (suc k) y h =
    let e : y + 1 + suc k ≡ y + 1 + k + 1 = omega arith in
    rw e (omega (arith, year_start_mono_by k y h, year_start-suc (y + 1 + k) (omega arith)))

-- A later year starts after the end of an earlier one.
pub year_start_mono : (y y' : ℕ) → 1970 ≤ y → y < y' → year_start y + days_in_year y ≤ year_start y'
year_start_mono y y' h lt =
    let e : y + 1 + (y' - (y + 1)) ≡ y' = omega arith in
    rw e at (year_start_mono_by (y' - (y + 1)) y h)

month_start_mono_by :
    (k y m : ℕ) → 1 ≤ m → month_start y m + days_in_month y m ≤ month_start y (suc m + k)
month_start_mono_by zero y m h =
    let e : suc m + 0 ≡ suc m = omega arith in rw e (omega (arith, month_start-suc y m h))
month_start_mono_by (suc k) y m h =
    let e : suc m + suc k ≡ suc (suc m + k) = omega arith in
    rw e (omega (arith, month_start_mono_by k y m h, month_start-suc y (suc m + k) (omega arith)))

pub month_start_mono :
    (y m m' : ℕ) → 1 ≤ m → m < m' → month_start y m + days_in_month y m ≤ month_start y m'
month_start_mono y m m' h lt =
    let e : suc m + (m' - suc m) ≡ m' = omega arith in
    rw e at (month_start_mono_by (m' - suc m) y m h)

-- The day lies in its year.
pub day_number_bounds :
    (y m d : ℕ)
    → IsDay y m d
    → (year_start y ≤ day_number y m d) × (day_number y m d < year_start y + days_in_year y)
unfolding day_number
day_number_bounds y m d v =
    let b = v.day_high in
    let l = v.day_low in
    let step = month_start_mono y m 13 v.month_low (omega (arith, v.month_high)) in
    let total = month_start-year y in omega arith

pub day_number-lt_year :
    (y m d y' m' d' : ℕ)
    → IsDay y m d
    → IsDay y' m' d'
    → y < y'
    → day_number y m d < day_number y' m' d'
day_number-lt_year y m d y' m' d' v v' lt = omega (
  arith,
  day_number_bounds y m d v,
  day_number_bounds y' m' d' v',
  year_start_mono y y' v.year_low lt,
)

pub day_number-lt_month :
    (y m d m' d' : ℕ) → IsDay y m d → IsDay y m' d' → m < m' → day_number y m d < day_number y m' d'
unfolding day_number
day_number-lt_month y m d m' d' v v' lt =
    let b = v.day_high in
    let l = v.day_low in
    let l' = v'.day_low in omega (arith, month_start_mono y m m' v.month_low lt)

pub day_number-lt_day : (y m d d' : ℕ) → 1 ≤ d → d < d' → day_number y m d < day_number y m d'
unfolding day_number
day_number-lt_day y m d d' h lt = omega arith
