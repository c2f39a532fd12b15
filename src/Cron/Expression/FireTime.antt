-- ===== src/Cron/Expression/FireTime.antt =====
-- `computeNextCronFireTime` from the text of the expression to the time.
use chimpbase.Prelude.{
  ℕ, ◌≤◌, ◌<◌, ◌≡◌, ◌↔◌, sym, ◌∙◌, ◌⊎◌, inl, inr, true, false, some, In, arith, Bool-cases,
}
use native.Mathlib.Nat.{le_trans}
use chimpbase.Prelude.Result.{ok, ◌>>=◌}
use chimpbase.Text.{Text}
use chimpbase.Cron.Calendar.{days_in_month}
use chimpbase.Cron.Calendar.Leap.{days_in_month-le_leap}
use chimpbase.Cron.Search.{ParsedCronExpression, next_fire_time}
use chimpbase.Cron.Search.Spec.{Fires}
use chimpbase.Cron.Search.Results.{next_fire_time-least}
use chimpbase.Cron.Search.Total.{HasDay, next_fire_time-total}
use chimpbase.Cron.Field.{Number}
use chimpbase.Cron.Expression.{
  Cache, normalize_expression, parse_fields, fire_time_of, compute_next_cron_fire_time,
}
use chimpbase.Cron.Expression.Parsed.{
  IsParsed, IsParsed→IsExpression, parse_fields-IsParsed, IsCoherent,
  parse_cron_expression-eq-parse_fields,
}

-- `t` is the first fire time after `after`.
pub record IsNext (p : ParsedCronExpression) (after t : ℕ) : Type 0 where
  pub fires : Fires p t
  pub later : after < t
  pub first : (t' : ℕ) → Fires p t' → after < t' → t ≤ t'

-- The calendar has a day for the expression: weekdays are restricted, or days of the month are
-- not, or one of the listed days exists in one of the listed months, in a leap year at least.
abbrev pub CanFire : ParsedCronExpression → Type 0
CanFire p =
    (p.day_of_week.wildcard ≡ false)
    ⊎ (p.day_of_month.wildcard ≡ true)
    ⊎ ((m d : ℕ) × In m p.month.values × In d p.day_of_month.values × (d ≤ days_in_month 2000 m))

CanFire→HasDay :
    (p : ParsedCronExpression) → IsParsed p → CanFire p → (m : ℕ) × In m p.month.values × HasDay p m
CanFire→HasDay p w c =
    let (month, im) = w.month.some_value in
    elim (Bool-cases p.day_of_week.wildcard) [
      | inr restricted ↦ (month, im, inl (restricted, w.day_of_week.some_value))
      | inl wild ↦ elim (Bool-cases p.day_of_month.wildcard) [
        | inl free ↦ (month, im, inr (inl (wild, free)))
        | inr listed ↦ elim c [
          | inl e ↦ cc
          | inr (inl e) ↦ cc
          | inr (inr (m, d, i, j, le)) ↦ (m, i, inr (inr (wild, listed, (d, j, le))))
        ]
      ]
    ]

Fires→CanFire : (p : ParsedCronExpression) (t : ℕ) → Fires p t → CanFire p
Fires→CanFire p t (y, m, d, h, n, f, _) = elim f.day [
  | inl (free, _) ↦ inr (inl free)
  | inr (inl (free, _, _)) ↦ inr (inl free)
  | inr (inr (inl (_, _, i))) ↦
      inr (inr (m, d, f.month, i, le_trans f.is_day.day_high (days_in_month-le_leap y m)))
  | inr (inr (inr (_, restricted, _))) ↦ inl restricted
]

module _ (other : Number) where
  -- The result is that of the parser without a cache, followed by the search.
  compute-eq-fire_time_of :
      (cache : Cache) (expression : Text) (after : ℕ)
      → IsCoherent other cache
      → ((compute_next_cron_fire_time other cache expression after).0 ≡ (
          parse_fields other (normalize_expression expression) >>= λ p. fire_time_of other p after))
        × IsCoherent other (compute_next_cron_fire_time other cache expression after).1
  unfolding compute_next_cron_fire_time
  compute-eq-fire_time_of cache expression after c =
      let (same, c') = parse_cron_expression-eq-parse_fields other cache expression c in
      (rw same, c')

  fire_time_of-IsNext :
      (p : ParsedCronExpression) (after t : ℕ)
      → IsParsed p
      → fire_time_of other p after ≡ ok t
      → IsNext p after t
  unfolding fire_time_of
  fire_time_of-IsNext p after t w e =
      let found : next_fire_time p after ≡ some t = ground arith in
      let (fires, later, first) = next_fire_time-least p (IsParsed→IsExpression w) after t found in
      record { fires = fires; later = later; first = first }

  fire_time_of-total :
      (p : ParsedCronExpression) (after : ℕ)
      → IsParsed p
      → CanFire p
      → (t : ℕ) × (fire_time_of other p after ≡ ok t)
  unfolding fire_time_of
  fire_time_of-total p after w c =
      let (m, im, day) = CanFire→HasDay p w c in
      let (h, ih) = w.hour.some_value in
      let (n, i_n) = w.minute.some_value in
      let (t, e) = next_fire_time-total p (IsParsed→IsExpression w) after m h n im ih i_n day in
      (t, rw (e, fire_time_of))

  module _ (cache : Cache) (expression : Text) (p : ParsedCronExpression)
      (coherent : IsCoherent other cache)
      (parses : parse_fields other (normalize_expression expression) ≡ ok p) where
    compute-eq :
        (after : ℕ)
        → (compute_next_cron_fire_time other cache expression after).0 ≡ fire_time_of other p after
    compute-eq after = (compute-eq-fire_time_of cache expression after coherent).0 ∙ rw parses

    -- A time that computeNextCronFireTime returns, with a coherent cache and an expression that
    -- parses, is a fire time of the expression after the given time, and no fire time lies between
    -- the two.
    pub compute_next_cron_fire_time-IsNext :
        (after t : ℕ)
        → (compute_next_cron_fire_time other cache expression after).0 ≡ ok t
        → IsNext p after t
    compute_next_cron_fire_time-IsNext after t e =
        fire_time_of-IsNext p after t (parse_fields-IsParsed other _ p parses)
          (sym (compute-eq after) ∙ e)

    -- With a coherent cache and an expression that parses, computeNextCronFireTime returns a time
    -- exactly when the fields leave the expression a day in some year, so the look-ahead of eight
    -- years is enough.
    pub compute_next_cron_fire_time-total :
        (after : ℕ)
        → ((t : ℕ) × ((compute_next_cron_fire_time other cache expression after).0 ≡ ok t))
          ↔ CanFire p
    compute_next_cron_fire_time-total after = (
      λ (t, e). Fires→CanFire p t (compute_next_cron_fire_time-IsNext after t e).fires,
      λ c.
          let (t, e) = fire_time_of-total p after (parse_fields-IsParsed other _ p parses) c in
          (t, compute-eq after ∙ e),
    )

    pub compute_next_cron_fire_time-IsCoherent :
        (after : ℕ) → IsCoherent other (compute_next_cron_fire_time other cache expression after).1
    compute_next_cron_fire_time-IsCoherent after =
        (compute-eq-fire_time_of cache expression after coherent).1
