-- ===== src/Cron/Search/Spec.antt =====
-- When a cron expression fires, stated on the calendar and without the search.
use chimpbase.Prelude.{ℕ, ◌≤◌, ◌≡◌, ◌↔◌, ◌⊎◌, inl, inr, true, false, List, [], ◌∷◌, In, arith}
use chimpbase.Cron.Calendar.{day_of_week, utc}
use chimpbase.Cron.Calendar.Order.{IsDay}
use chimpbase.Cron.Calendar.Getters.{IsTime}
use chimpbase.Cron.Search.{ParsedCronField, ParsedCronExpression, has, matches_day}
use chimpbase.Cron.Search.Least.{IsAscending}

-- A field whose values are sorted, are those of the set, and lie between the two bounds.
pub record IsField (low high : ℕ) (f : ParsedCronField) : Type 0 where
  pub sorted : IsAscending f.values
  pub same_set : (v : ℕ) → In v f.values ↔ In v f.value_set
  pub within : (v : ℕ) → In v f.values → (low ≤ v) × (v ≤ high)

pub record IsExpression (p : ParsedCronExpression) : Type 0 where
  pub minute : IsField 0 59 p.minute
  pub hour : IsField 0 23 p.hour
  pub day_of_month : IsField 1 31 p.day_of_month
  pub month : IsField 1 12 p.month
  pub day_of_week : IsField 0 6 p.day_of_week

-- The rule of cron for the two day fields: a wildcard defers to the other field, and of two
-- restricted fields either may match.
abbrev pub DayFires : ParsedCronExpression → ℕ → ℕ → ℕ → Type 0
DayFires p y m d =
    ((p.day_of_month.wildcard ≡ true) × (p.day_of_week.wildcard ≡ true))
    ⊎ ((p.day_of_month.wildcard ≡ true)
        × (p.day_of_week.wildcard ≡ false)
        × In (day_of_week y m d) p.day_of_week.values)
    ⊎ ((p.day_of_month.wildcard ≡ false)
        × (p.day_of_week.wildcard ≡ true)
        × In d p.day_of_month.values)
    ⊎ ((p.day_of_month.wildcard ≡ false)
        × (p.day_of_week.wildcard ≡ false)
        × (In d p.day_of_month.values ⊎ In (day_of_week y m d) p.day_of_week.values))

-- The expression fires at this minute of the calendar.
pub record FiresAt (p : ParsedCronExpression) (y m d h n : ℕ) : Type 0 where
  pub is_day : IsDay y m d
  pub is_time : IsTime h n
  pub month : In m p.month.values
  pub day : DayFires p y m d
  pub hour : In h p.hour.values
  pub minute : In n p.minute.values

-- `t` is a fire time in milliseconds.
abbrev pub Fires : ParsedCronExpression → ℕ → Type 0
Fires p t = (y m d h n : ℕ) × FiresAt p y m d h n × (t ≡ utc y m d h n)

pub has→In : (xs : List ℕ) (v : ℕ) → has xs v ≡ true → In v xs
unfolding has
has→In [] v e = cc
has→In (x ∷ xs) v e = ground (arith, has→In xs v)

pub In→has : (xs : List ℕ) (v : ℕ) → In v xs → has xs v ≡ true
unfolding has
In→has [] v i = absurd i
In→has (x ∷ xs) v (inl e) = ground arith
In→has (x ∷ xs) v (inr i) = ground (arith, In→has xs v i)

module _ (p : ParsedCronExpression) (wf : IsExpression p) (y m d : ℕ) where
  pub matches_day→DayFires : matches_day p y m d ≡ true → DayFires p y m d
  unfolding matches_day
  matches_day→DayFires e = ground (
    arith,
    λ (h : has p.day_of_month.value_set d ≡ true).
        (wf.day_of_month.same_set d).1 (has→In p.day_of_month.value_set d h),
    λ (h : has p.day_of_week.value_set (day_of_week y m d) ≡ true).
        (wf.day_of_week.same_set (day_of_week y m d)).1
          (has→In p.day_of_week.value_set (day_of_week y m d) h),
  )

  pub DayFires→matches_day : DayFires p y m d → matches_day p y m d ≡ true
  unfolding matches_day
  DayFires→matches_day e = ground (
    arith,
    λ (i : In d p.day_of_month.values).
        In→has p.day_of_month.value_set d ((wf.day_of_month.same_set d).0 i),
    λ (i : In (day_of_week y m d) p.day_of_week.values).
        In→has p.day_of_week.value_set (day_of_week y m d)
          ((wf.day_of_week.same_set (day_of_week y m d)).0 i),
  )
