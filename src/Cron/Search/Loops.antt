-- ===== src/Cron/Search/Loops.antt =====
-- The loops over hours and minutes: each returns the least fire time, from the start on, among
-- those that share the fields its outer loops have fixed.
use chimpbase.Prelude.{
  ℕ, ◌≤◌, ◌<◌, ◌≡◌, refl, ◌⊎◌, inl, inr, Bool, true, false, ◌&&◌, none, some, In, arith, ltb, ◌==◌,
  Bool-cases, if◌then◌else◌,
}
use chimpbase.Cron.Calendar.{day_number, utc, DateTime}
use chimpbase.Cron.Calendar.Order.{
  IsDay, day_number-lt_year, day_number-lt_month, day_number-lt_day,
}
use chimpbase.Cron.Calendar.Getters.{IsTime}
use chimpbase.Cron.Search.{ParsedCronExpression, minute_loop, hour_loop}
use chimpbase.Cron.Search.Least.{Least, first_some-Least}
use chimpbase.Cron.Search.Spec.{IsExpression, DayFires}

module _ (p : ParsedCronExpression) (s : DateTime) (wf : IsExpression p)
    (start_day : IsDay s.year s.month s.day) (start_time : IsTime s.hour s.minute) where
  abbrev pub start_ms : ℕ
  start_ms = utc s.year s.month s.day s.hour s.minute

  -- The candidates of each loop's body.
  pub record AtMinute (y m d h n t : ℕ) : Type 0 where
    pub is_day : IsDay y m d
    pub is_time : IsTime h n
    pub from_start : start_ms ≤ t
    pub time : t ≡ utc y m d h n

  abbrev pub AtHour : ℕ → ℕ → ℕ → ℕ → ℕ → Type 0
  AtHour y m d h t = (n : ℕ) × In n p.minute.values × AtMinute y m d h n t

  abbrev pub AtDay : ℕ → ℕ → ℕ → ℕ → Type 0
  AtDay y m d t = DayFires p y m d × ((h : ℕ) × In h p.hour.values × AtHour y m d h t)

  abbrev pub AtMonth : ℕ → ℕ → ℕ → Type 0
  AtMonth y m t = (d : ℕ) × AtDay y m d t

  abbrev pub AtYear : ℕ → ℕ → Type 0
  AtYear y t = (m : ℕ) × In m p.month.values × AtMonth y m t

  minute_ordered :
      (y m d h n n' t t' : ℕ) → n < n' → AtMinute y m d h n t → AtMinute y m d h n' t' → t ≤ t'
  unfolding utc
  minute_ordered y m d h n n' t t' lt a a' = let e = a.time in let e' = a'.time in omega arith

  hour_ordered : (y m d h h' t t' : ℕ) → h < h' → AtHour y m d h t → AtHour y m d h' t' → t ≤ t'
  unfolding utc
  hour_ordered y m d h h' t t' lt (n, _, a) (n', _, a') =
      let e = a.time in let e' = a'.time in let k = a.is_time.minute_high in omega arith

  earlier_day :
      (y m d h n y' m' d' h' n' t t' : ℕ)
      → day_number y m d < day_number y' m' d'
      → AtMinute y m d h n t
      → AtMinute y' m' d' h' n' t'
      → t ≤ t'
  unfolding utc
  earlier_day y m d h n y' m' d' h' n' t t' lt a a' =
      let e = a.time in
      let e' = a'.time in
      let k = a.is_time.minute_high in let l = a.is_time.hour_high in omega arith

  pub day_ordered : (y m d d' t t' : ℕ) → d < d' → AtDay y m d t → AtDay y m d' t' → t ≤ t'
  day_ordered y m d d' t t' lt (_, (h, _, (n, _, a))) (_, (h', _, (n', _, a'))) =
      earlier_day y m d h n y m d' h' n' t t' (day_number-lt_day y m d d' a.is_day.day_low lt) a a'

  pub month_ordered : (y m m' t t' : ℕ) → m < m' → AtMonth y m t → AtMonth y m' t' → t ≤ t'
  month_ordered y m m' t t' lt (d, (_, (h, _, (n, _, a)))) (d', (_, (h', _, (n', _, a')))) =
      earlier_day y m d h n y m' d' h' n' t t'
        (day_number-lt_month y m d m' d' a.is_day a'.is_day lt) a a'

  pub year_ordered : (y y' t t' : ℕ) → y < y' → AtYear y t → AtYear y' t' → t ≤ t'
  year_ordered y y' t t' lt (m, _, (d, (_, (h, _, (n, _, a)))))
        (m', _, (d', (_, (h', _, (n', _, a'))))) =
      earlier_day y m d h n y' m' d' h' n' t t'
        (day_number-lt_year y m d y' m' d' a.is_day a'.is_day lt) a a'

  -- How far the fixed fields stand from the start: still on it, or past it.
  abbrev HourPosition : ℕ → ℕ → ℕ → ℕ → Bool → Type 0
  HourPosition y m d h same =
      ((same ≡ true) × (y ≡ s.year) × (m ≡ s.month) × (d ≡ s.day) × (h ≡ s.hour))
      ⊎ ((same ≡ false) × (start_ms ≤ utc y m d h 0))

  abbrev pub DayPosition : ℕ → ℕ → ℕ → Bool → Type 0
  DayPosition y m d same =
      ((same ≡ true) × (y ≡ s.year) × (m ≡ s.month) × (d ≡ s.day))
      ⊎ ((same ≡ false) × (start_ms ≤ utc y m d 0 0))

  minute_skip :
      (y m d h n : ℕ) (same : Bool)
      → HourPosition y m d h same
      → (same && ltb n s.minute) ≡ true
      → (t : ℕ) → AtMinute y m d h n t
      → ⊥
  unfolding utc
  minute_skip y m d h n same pos e t a =
      let time = a.time in let from = a.from_start in ground arith

  minute_take :
      (y m d h n : ℕ) (same : Bool)
      → HourPosition y m d h same
      → (same && ltb n s.minute) ≡ false
      → start_ms ≤ utc y m d h n
  unfolding utc
  minute_take y m d h n same pos e = ground arith

  minute_body :
      (y m d h n : ℕ) (same : Bool)
      → IsDay y m d
      → h < 24
      → In n p.minute.values
      → HourPosition y m d h same
      → Least (AtMinute y m d h n) (if same && ltb n s.minute then none else some (utc y m d h n))
  minute_body y m d h n same day hour i pos = elim (Bool-cases (same && ltb n s.minute)) [
    | inl e ↦ rw e (minute_skip y m d h n same pos e)
    | inr e ↦
        let high : n ≤ 59 = (wf.minute.within n i).1 in
        rw e (
          record {
            is_day = day;
            is_time = record { hour_high = hour; minute_high = omega arith };
            from_start = minute_take y m d h n same pos e;
            time = refl;
          },
          λ t a. let time = a.time in omega arith,
        )
  ]

  minute_loop-Least :
      (y m d h : ℕ) (same : Bool)
      → IsDay y m d
      → h < 24
      → HourPosition y m d h same
      → Least (AtHour y m d h) (minute_loop p s y m d h same)
  unfolding minute_loop
  minute_loop-Least y m d h same day hour pos =
      first_some-Least _ (AtMinute y m d h) (minute_ordered y m d h) p.minute.values
        wf.minute.sorted (λ n i. minute_body y m d h n same day hour i pos)

  hour_skip :
      (y m d h : ℕ) (same : Bool)
      → DayPosition y m d same
      → (same && ltb h s.hour) ≡ true
      → (t : ℕ) → AtHour y m d h t
      → ⊥
  unfolding utc
  hour_skip y m d h same pos e t (n, _, a) =
      let time = a.time in
      let from = a.from_start in let high = a.is_time.minute_high in ground arith

  hour_position :
      (y m d h : ℕ) (same : Bool)
      → DayPosition y m d same
      → (same && ltb h s.hour) ≡ false
      → HourPosition y m d h (same && (h == s.hour))
  unfolding utc
  hour_position y m d h same pos e = let high = start_time.minute_high in ground arith

  hour_body :
      (y m d h : ℕ) (same : Bool)
      → IsDay y m d
      → In h p.hour.values
      → DayPosition y m d same
      → Least
          (AtHour y m d h)
          (if same && ltb h s.hour then none else minute_loop p s y m d h (same && (h == s.hour)))
  hour_body y m d h same day i pos = elim (Bool-cases (same && ltb h s.hour)) [
    | inl e ↦ rw e (hour_skip y m d h same pos e)
    | inr e ↦
        let high : h ≤ 23 = (wf.hour.within h i).1 in
        rw e (
          minute_loop-Least y m d h (same && (h == s.hour)) day (omega arith)
            (hour_position y m d h same pos e))
  ]

  pub hour_loop-Least :
      (y m d : ℕ) (same : Bool)
      → IsDay y m d
      → DayPosition y m d same
      → Least (λ t. (h : ℕ) × In h p.hour.values × AtHour y m d h t) (hour_loop p s y m d same)
  unfolding hour_loop
  hour_loop-Least y m d same day pos =
      first_some-Least _ (AtHour y m d) (hour_ordered y m d) p.hour.values wf.hour.sorted
        (λ h i. hour_body y m d h same day i pos)
