-- ===== src/Cron/Search/Dates.antt =====
-- The loop over the days of a month returns the least fire time of the month from the start on.
use native.Mathlib.Nat.{le_trans}
use chimpbase.Prelude.{
  ℕ, ◌≤◌, ◌<◌, ◌≡◌, refl, ◌⊎◌, inl, inr, Bool, true, false, ◌&&◌, none, arith, ltb, ◌==◌,
  Bool-cases, if◌then◌else◌,
}
use chimpbase.Cron.Calendar.{days_in_month, day_number, utc, DateTime}
use chimpbase.Cron.Calendar.Order.{IsDay, day_number-lt_day}
use chimpbase.Cron.Calendar.Getters.{IsTime}
use chimpbase.Cron.Search.{ParsedCronExpression, matches_day, range, hour_loop, day_loop}
use chimpbase.Cron.Search.Least.{
  Least, Least-iff, first_some-Least, range-In, In-range, range-IsAscending,
}
use chimpbase.Cron.Search.Spec.{IsExpression, matches_day→DayFires, DayFires→matches_day}
use chimpbase.Cron.Search.Loops.{
  start_ms, AtDay, AtMonth, DayPosition, day_ordered, hour_loop-Least,
}

-- A day before another one lies before it at every time.
utc-le_day :
    (y m d h n y' m' d' : ℕ)
    → h < 24
    → n < 60
    → day_number y m d < day_number y' m' d'
    → utc y m d h n ≤ utc y' m' d' 0 0
unfolding utc
utc-le_day y m d h n y' m' d' hh hn lt = omega arith

pub utc-lt_day :
    (y m d h n y' m' d' h' n' : ℕ)
    → h < 24
    → n < 60
    → day_number y m d < day_number y' m' d'
    → utc y m d h n < utc y' m' d' h' n'
unfolding utc
utc-lt_day y m d h n y' m' d' h' n' hh hn lt = omega arith

day_number_mono : (y m d d' : ℕ) → d ≤ d' → day_number y m d ≤ day_number y m d'
unfolding day_number
day_number_mono y m d d' le = omega arith

module _ (p : ParsedCronExpression) (s : DateTime) (wf : IsExpression p)
    (start_day : IsDay s.year s.month s.day) (start_time : IsTime s.hour s.minute) where
  abbrev start : ℕ
  start = start_ms p s wf start_day start_time

  abbrev Day : ℕ → ℕ → ℕ → ℕ → Type 0
  Day = AtDay p s wf start_day start_time

  abbrev pub Month : ℕ → ℕ → ℕ → Type 0
  Month = AtMonth p s wf start_day start_time

  abbrev Position : ℕ → ℕ → ℕ → Bool → Type 0
  Position = DayPosition p s wf start_day start_time

  -- A month position: the year and month of the start, or any later month.
  abbrev pub MonthPosition : ℕ → ℕ → Bool → Type 0
  MonthPosition y m same =
      ((same ≡ true) × (y ≡ s.year) × (m ≡ s.month))
      ⊎ ((same ≡ false) × (1970 ≤ y) × (day_number s.year s.month s.day < day_number y m 1))

  hours_found :
      (y m d : ℕ) (same : Bool)
      → IsDay y m d
      → Position y m d same
      → Least (Day y m d) (if matches_day p y m d then hour_loop p s y m d same else none)
  hours_found y m d same day pos = elim (Bool-cases (matches_day p y m d)) [
    | inl e ↦ rw e (
        Least-iff _ (Day y m d) (hour_loop p s y m d same)
          (λ t a. (matches_day→DayFires p wf y m d e, a)) (λ t a. a.1)
          (hour_loop-Least p s wf start_day start_time y m d same day pos))
    | inr e ↦ rw e (λ t a. cc (DayFires→matches_day p wf y m d a.0))
  ]

  day_place :
      (y m d : ℕ) (same : Bool)
      → MonthPosition y m same
      → (if same then s.day else 1) ≤ d
      → Position y m d (same && (d == s.day))
  day_place y m d true (inr (e, _, _)) first = cc
  day_place y m d true (inl (_, ey, em)) first = elim (Bool-cases (d == s.day)) [
    | inl e ↦ rw e (inl (refl, ey, em, ground arith))
    | inr e ↦
        let later : s.day < d = ground arith in
        rw (e, ey, em)
          (inr (
            refl,
            utc-le_day s.year s.month s.day s.hour s.minute s.year s.month d start_time.hour_high
                start_time.minute_high
                (day_number-lt_day s.year s.month s.day d start_day.day_low later),
          ))
  ]
  day_place y m d false (inl (e, _, _)) first = cc
  day_place y m d false (inr (_, _, lt)) first = inr (
    refl,
    utc-le_day s.year s.month s.day s.hour s.minute y m d start_time.hour_high
        start_time.minute_high (le_trans lt (day_number_mono y m 1 d first)),
  )

  -- A fire time from the start on lies in the days that the loop runs over.
  first_day_le :
      (y m d t : ℕ) (same : Bool)
      → MonthPosition y m same
      → Day y m d t
      → (if same then s.day else 1) ≤ d
  first_day_le y m d t false pos (_, (h, _, (n, _, a))) = a.is_day.day_low
  first_day_le y m d t true (inr (e, _, _)) day = cc
  first_day_le y m d t true (inl (_, ey, em)) (_, (h, _, (n, _, a))) =
      elim (Bool-cases (ltb d s.day)) [
        | inl e ↦
            let lt : utc s.year s.month d h n < utc s.year s.month s.day s.hour s.minute =
              utc-lt_day s.year s.month d h n s.year s.month s.day s.hour s.minute
                a.is_time.hour_high a.is_time.minute_high
                (day_number-lt_day s.year s.month d s.day a.is_day.day_low (ground arith)) in
            let time : t ≡ utc s.year s.month d h n = rw (← ey, ← em) a.time in
            let from = a.from_start in absurd (omega arith)
        | inr e ↦ ground arith
      ]

  first_low : (same : Bool) → 1 ≤ (if same then s.day else 1)
  first_low same = let low = start_day.day_low in ground arith

  pub day_loop-Least :
      (y m : ℕ)
      → 1970 ≤ y
      → 1 ≤ m
      → m ≤ 12
      → MonthPosition y m ((y == s.year) && (m == s.month))
      → Least (Month y m) (day_loop p s y m)
  unfolding day_loop
  day_loop-Least y m year low high pos =
      let same = (y == s.year) && (m == s.month) in
      let first : ℕ = if same then s.day else 1 in
      let last = days_in_month y m in
      Least-iff _ (Month y m) (day_loop p s y m) (λ t (d, _, a). (d, a))
        (λ t (d, a).
          let (_, (h, _, (n, _, leaf))) = a in
          (d, In-range first last d (first_day_le y m d t same pos a) leaf.is_day.day_high, a))
        (first_some-Least _ (Day y m) (day_ordered p s wf start_day start_time y m)
          (range first last) (range-IsAscending first last)
          (λ d i.
            let bounds = range-In first last d i in
            hours_found y m d (same && (d == s.day))
              (record {
                year_low = year;
                month_low = low;
                month_high = high;
                day_low = le_trans (first_low same) bounds.0;
                day_high = bounds.1;
              })
              (day_place y m d same pos bounds.0)))
