-- ===== src/Cron/Search/Results.antt =====
-- What `computeNextCronFireTime` promises of the time that it returns, and of the final throw.
use chimpbase.Prelude.{
  ℕ, ◌+◌, ◌*◌, ◌/◌, ◌≤◌, ◌<◌, ◌≡◌, inl, inr, Option, none, some, arith, ltb, subst, refl,
  Bool-cases,
}
use chimpbase.Cron.Calendar.{day_number, utc}
use chimpbase.Cron.Calendar.Order.{day_number-lt_year}
use chimpbase.Cron.Calendar.Getters.{date_of_minutes_lem}
use chimpbase.Cron.Search.{ParsedCronExpression, cron_lookahead_years, next_fire_time}
use chimpbase.Cron.Search.Least.{Least}
use chimpbase.Cron.Search.Spec.{IsExpression, Fires, FiresAt}
use chimpbase.Cron.Search.Dates.{utc-lt_day}
use chimpbase.Cron.Search.Next.{first_minute, AYear, search-Least}

utc_whole : (y m d h n : ℕ) → (k : ℕ) × (utc y m d h n ≡ k * 60000)
unfolding utc
utc_whole y m d h n = ((day_number y m d * 24 + h) * 60 + n, refl)

module _ (p : ParsedCronExpression) (wf : IsExpression p) (after : ℕ) where
  abbrev Candidate : ℕ → ℕ → Type 0
  Candidate =
      AYear p (first_minute after) wf (date_of_minutes_lem (after / 60000 + 1)).0
        (date_of_minutes_lem (after / 60000 + 1)).1

  Candidate→Fires : (y t : ℕ) → Candidate y t → Fires p t × (after < t)
  Candidate→Fires y t (m, im, (d, (fires, (h, ih, (n, i_n, a))))) =
      let start = (date_of_minutes_lem (after / 60000 + 1)).2 in
      let from = a.from_start in
      (
        (
          y,
          m,
          d,
          h,
          n,
          record {
            is_day = a.is_day;
            is_time = a.is_time;
            month = im;
            day = fires;
            hour = ih;
            minute = i_n;
          },
          a.time,
        ),
        omega arith,
      )

  FiresAt→Candidate :
      (y m d h n t : ℕ) → FiresAt p y m d h n → t ≡ utc y m d h n → after < t → Candidate y t
  FiresAt→Candidate y m d h n t f e lt =
      let start = (date_of_minutes_lem (after / 60000 + 1)).2 in
      let (k, whole) = utc_whole y m d h n in
      (
        m,
        f.month,
        (
          d,
          (
            f.day,
            (
              h,
              f.hour,
              (
                n,
                f.minute,
                record {
                  is_day = f.is_day;
                  is_time = f.is_time;
                  from_start = omega arith;
                  time = e;
                },
              ),
            ),
          ),
        ),
      )

  -- Two fire times in different years stand in the order of the years.
  years_apart : (y y' t t' : ℕ) → Candidate y t → Candidate y' t' → y < y' → t ≤ t'
  years_apart y y' t t' (m, _, (d, (_, (h, _, (n, _, a))))) (m', _, (d', (_, (h', _, (n', _, a')))))
        lt =
      let e = a.time in
      let e' = a'.time in
      omega (
        arith,
        utc-lt_day y m d h n y' m' d' h' n' a.is_time.hour_high a.is_time.minute_high
            (day_number-lt_year y m d y' m' d' a.is_day a'.is_day lt),
      )

  something_found :
      (o : Option ℕ) (t : ℕ)
      → Least
          (λ t. (y : ℕ) × (y ≤ (first_minute after).year + cron_lookahead_years) × Candidate y t)
          o
      → o ≡ some t
      → Fires p t × (after < t) × ((t' : ℕ) → Fires p t' → after < t' → t ≤ t')
  something_found none t l e = cc
  something_found (some r) t ((y, le, c), low) e =
      let same : r ≡ t = cc in
      let c' : Candidate y t = subst (Candidate y) same c in
      let (fires, later) = Candidate→Fires y t c' in
      (
        fires,
        later,
        λ t' (y', m', d', h', n', f, time) lt.
            let other = FiresAt→Candidate y' m' d' h' n' t' f time lt in
            elim (Bool-cases (ltb ((first_minute after).year + cron_lookahead_years) y')) [
              | inl out ↦ years_apart y y' t t' c' other (ground arith)
              | inr near ↦ omega (arith, low t' (y', ground arith, other))
            ],
      )

  -- A time that the search returns is a fire time of the expression, lies after the given time, and
  -- no fire time of the expression lies between the two.
  pub next_fire_time-least :
      (t : ℕ)
      → next_fire_time p after ≡ some t
      → Fires p t × (after < t) × ((t' : ℕ) → Fires p t' → after < t' → t ≤ t')
  next_fire_time-least t e = something_found (next_fire_time p after) t (search-Least p wf after) e

  nothing_found :
      (o : Option ℕ)
      → Least
          (λ t. (y : ℕ) × (y ≤ (first_minute after).year + cron_lookahead_years) × Candidate y t)
          o
      → o ≡ none
      → (y m d h n : ℕ) → FiresAt p y m d h n
      → after < utc y m d h n
      → (first_minute after).year + cron_lookahead_years < y
  nothing_found (some r) l e y m d h n f lt = cc
  nothing_found none l e y m d h n f lt =
      elim (Bool-cases (ltb ((first_minute after).year + cron_lookahead_years) y)) [
        | inl out ↦ ground arith
        | inr near ↦ absurd (
            l (utc y m d h n)
              (y, ground arith, FiresAt→Candidate y m d h n (utc y m d h n) f refl lt))
      ]

  -- The search throws only where the expression does not fire after the given time in that year or
  -- any of the next eight.
  pub next_fire_time-none :
      next_fire_time p after ≡ none
      → (y m d h n : ℕ) → FiresAt p y m d h n
      → after < utc y m d h n
      → (first_minute after).year + cron_lookahead_years < y
  next_fire_time-none e = nothing_found (next_fire_time p after) (search-Least p wf after) e
