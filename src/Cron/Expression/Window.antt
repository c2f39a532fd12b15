-- ===== src/Cron/Expression/Window.antt =====
-- `resolveNextCronExecutionWindow` of core/engine.ts: missed fire times collapse into the last one.
use chimpbase.Prelude.{
  ℕ, zero, suc, ◌+◌, ◌≤◌, ◌<◌, ◌≡◌, refl, ◌⊎◌, inl, inr, Option, some, arith, leb, Bool-cases,
}
use chimpbase.Prelude.Result.{Result, ok}
use chimpbase.Text.{Text}
use chimpbase.Cron.Search.{ParsedCronExpression}
use chimpbase.Cron.Search.Spec.{Fires}
use chimpbase.Cron.Field.{CronError, Number}
use chimpbase.Cron.Expression.{
  Cache, normalize_expression, parse_fields, compute_next_cron_fire_time, window_loop,
  resolve_next_cron_execution_window,
}
use chimpbase.Cron.Expression.Parsed.{IsCoherent}
use chimpbase.Cron.Expression.FireTime.{
  IsNext, CanFire, compute_next_cron_fire_time-IsNext, compute_next_cron_fire_time-total,
  compute_next_cron_fire_time-IsCoherent,
}

-- The window between the last fire time that is due and the first that is not.
pub record IsWindow (p : ParsedCronExpression) (persisted now fire next : ℕ) : Type 0 where
  pub from : persisted ≤ fire
  pub due : fire ≤ now
  pub fires : (fire ≡ persisted) ⊎ Fires p fire
  pub is_next : IsNext p fire next
  pub not_due : now < next

-- In a window every due fire time after the persisted one is at most `fire`, and every other one is
-- at least `next`.
pub IsWindow-last :
    {p : ParsedCronExpression} {persisted now fire next : ℕ}
    → IsWindow p persisted now fire next
    → (t : ℕ) → Fires p t
    → (t ≤ fire) ⊎ (next ≤ t)
IsWindow-last {fire = fire} w t f = elim (Bool-cases (leb t fire)) [
  | inl e ↦ inl (ground arith)
  | inr e ↦ inr (w.is_next.first t f (ground arith))
]

module _ (other : Number) (schedule : Text) (p : ParsedCronExpression)
    (parses : parse_fields other (normalize_expression schedule) ≡ ok p) (can_fire : CanFire p)
    (persisted now : ℕ) where
  -- The result of the loop, with the fuel left over.
  abbrev pub Ends : Option (Result CronError (ℕ × ℕ) × Cache) → Type 0
  Ends r =
      (fire next : ℕ) × (cache : Cache) × (r ≡ some (ok (fire, next), cache))
      × IsWindow p persisted now fire next
      × IsCoherent other cache

  compute_step :
      (cache : Cache) (after : ℕ)
      → IsCoherent other cache
      → (t : ℕ) × ((compute_next_cron_fire_time other cache schedule after).0 ≡ ok t)
        × IsNext p after t
        × IsCoherent other (compute_next_cron_fire_time other cache schedule after).1
  compute_step cache after c =
      let (t, e) =
        (compute_next_cron_fire_time-total other cache schedule p c parses after).1 can_fire in
      (
        t,
        e,
        compute_next_cron_fire_time-IsNext other cache schedule p c parses after t e,
        compute_next_cron_fire_time-IsCoherent other cache schedule p c parses after,
      )

  window_loop-Ends :
      (fuel : ℕ) (cache : Cache) (fire next : ℕ)
      → IsCoherent other cache
      → persisted ≤ fire
      → fire ≤ now
      → (fire ≡ persisted) ⊎ Fires p fire
      → IsNext p fire next
      → 1 ≤ fuel
      → now + 1 < next + fuel
      → Ends (window_loop other fuel schedule now cache fire next)
  unfolding window_loop
  window_loop-Ends zero cache fire next c from due fires is_next some_fuel room =
      absurd (omega arith)
  window_loop-Ends (suc fuel) cache fire next c from due fires is_next some_fuel room =
      elim (Bool-cases (leb next now)) [
        | inr e ↦
            rw (e, window_loop)
              (
                fire,
                next,
                cache,
                refl,
                record {
                  from = from;
                  due = due;
                  fires = fires;
                  is_next = is_next;
                  not_due = ground arith;
                },
                c,
              )
        | inl e ↦
            let (later, run, is_next', c') = compute_step cache next c in
            let cache' = (compute_next_cron_fire_time other cache schedule next).1 in
            rw (e, run, window_loop)
              (window_loop-Ends fuel cache' next later c' (omega (arith, is_next.later))
                (ground arith) (inr is_next.fires) is_next' (ground arith)
                (ground (arith, is_next'.later)))
      ]

  -- For an expression that parses and can fire, a coherent cache and a persisted fire time that is
  -- due, the loop of resolveNextCronExecutionWindow ends without throwing and returns the last
  -- fire time that is due and the first that is not.
  pub resolve_window-Ends :
      (cache : Cache)
      → IsCoherent other cache
      → persisted ≤ now
      → Ends (resolve_next_cron_execution_window other cache schedule persisted now)
  unfolding resolve_next_cron_execution_window
  resolve_window-Ends cache c due =
      let (next, run, is_next, c') = compute_step cache persisted c in
      let cache' = (compute_next_cron_fire_time other cache schedule persisted).1 in
      rw (run, resolve_next_cron_execution_window)
        (window_loop-Ends (suc now) cache' persisted next c' (omega arith) due (inl refl) is_next
          (omega arith) (omega (arith, is_next.later)))
