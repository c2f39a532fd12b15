-- ===== src/Schedules/Claim.antt =====
-- Which schedule a claim returns, and the table after it.
use chimpbase.Prelude.Maps.{str_ne}
use chimpbase.Prelude.{
  ◌≢◌, ◌↔◌, eq_iff, ℕ, ◌+◌, ◌≤◌, ◌≡◌, refl, sym, subst, ap, ◌∙◌, ◌⊎◌, inl, inr, String, Bool, true,
  false, ◌&&◌, Option, none, some, [], ◌∷◌, In, arith, ◌==◌, str_eq, eq_refl, Bool-cases,
  Option-cases,
}
use chimpbase.Schedules.Rows.{names_of, update-In, update-kept, update-old, update-names}
use chimpbase.Schedules.{
  CronSchedule, ScheduleTable, is_free_at, is_claimable, precedes, better, first_claimable,
  update_schedules, leased, claim_next_cron_schedule,
}

true_ne_false : true ≡ false → ⊥
true_ne_false e = cc

-- The lease of the row is not held at the time.
pub data IsFree (now : ℕ) (row : CronSchedule) : Type 0 where
  no_token : row.lease_token ≡ none → IsFree now row
  no_expiry : row.lease_expires_at_ms ≡ none → IsFree now row
  ran_out : (lease : ℕ) → row.lease_expires_at_ms ≡ some lease → lease ≤ now → IsFree now row

pub record MayClaim (now : ℕ) (row : CronSchedule) : Type 0 where
  pub due : row.next_fire_at_ms ≤ now
  pub free : IsFree now row

free_lem :
    (now : ℕ) (row : CronSchedule) (token : Option String) (lease : Option ℕ)
    → row.lease_token ≡ token
    → row.lease_expires_at_ms ≡ lease
    → is_free_at token lease now ≡ true
    → IsFree now row
free_lem now row none lease t l e = no_token t
free_lem now row (some token) none t l e = no_expiry l
free_lem now row (some token) (some lease) t l e = ran_out lease l (ground (arith, e))

free_at :
    (now : ℕ) (token : Option String) (lease : Option ℕ) (l : ℕ)
    → lease ≡ some l
    → l ≤ now
    → is_free_at token lease now ≡ true
free_at now none lease l e le = refl
free_at now (some token) none l e le = refl
free_at now (some token) (some lease) l e le = ground (arith, e, le)

expired_none : (now : ℕ) (token : Option String) → is_free_at token none now ≡ true
expired_none now none = refl
expired_none now (some token) = refl

free_test :
    (now : ℕ) (row : CronSchedule)
    → IsFree now row
    → is_free_at row.lease_token row.lease_expires_at_ms now ≡ true
free_test now row (no_token e) = rw e refl
free_test now row (no_expiry e) = rw e (expired_none now row.lease_token)
free_test now row (ran_out lease e le) =
    free_at now row.lease_token row.lease_expires_at_ms lease e le

is_claimable-MayClaim :
    (now : ℕ) (row : CronSchedule) → is_claimable now row ≡ true → MayClaim now row
unfolding is_claimable
is_claimable-MayClaim now row e = record {
  due = ground (arith, e);
  free = free_lem now row row.lease_token row.lease_expires_at_ms refl refl (ground (arith, e));
}

MayClaim-is_claimable :
    (now : ℕ) (row : CronSchedule) → MayClaim now row → is_claimable now row ≡ true
unfolding is_claimable
MayClaim-is_claimable now row m =
    let due = m.due in let free = free_test now row m.free in ground (arith, due, free)

module _ (comes_before : String → String → Bool) (now : ℕ) where
  -- The claimable row that fires first.
  abbrev IsFirst : CronSchedule → ScheduleTable → Type 0
  IsFirst row rows =
      In row rows
      × (is_claimable now row ≡ true)
      × ((other : CronSchedule)
          → In other rows
          → is_claimable now other ≡ true
          → row.next_fire_at_ms ≤ other.next_fire_at_ms)

  -- What the search returns.
  abbrev IsSearch : Option CronSchedule → ScheduleTable → Type 0
  IsSearch none rows = (other : CronSchedule) → In other rows → ¬ (is_claimable now other ≡ true)
  IsSearch (some row) rows = IsFirst row rows

  -- Either of two rows that `better` chooses from, and neither fires earlier.
  better-cases :
      (row other : CronSchedule)
      → ((better comes_before row (some other) ≡ other)
          × (other.next_fire_at_ms ≤ row.next_fire_at_ms))
        ⊎ ((better comes_before row (some other) ≡ row)
            × (row.next_fire_at_ms ≤ other.next_fire_at_ms))
  better-cases row other = elim (Bool-cases (precedes comes_before other row)) [
    | inl e ↦ inl (rw e refl, ground arith)
    | inr e ↦ inr (rw e refl, ground arith)
  ]

  add_claimable :
      (row : CronSchedule) (rows : ScheduleTable) (rest : Option CronSchedule)
      → is_claimable now row ≡ true
      → IsSearch rest rows
      → IsFirst (better comes_before row rest) (row ∷ rows)
  add_claimable row rows none e none_there = (
    inl refl,
    e,
    λ other i c. elim i [
      | inl same ↦ rw same (omega arith)
      | inr later ↦ absurd (none_there other later c)
    ],
  )
  add_claimable row rows (some r) e (there, c, least) = elim (better-cases row r) [
    | inl (chosen, le) ↦
        subst (λ x. IsFirst x (row ∷ rows)) (sym chosen)
          (
            inr there,
            c,
            λ other i d. elim i [ inl same ↦ rw same le | inr later ↦ least other later d ],
          )
    | inr (chosen, le) ↦
        subst (λ x. IsFirst x (row ∷ rows)) (sym chosen)
          (
            inl refl,
            e,
            λ other i d. elim i [
              | inl same ↦ rw same (omega arith)
              | inr later ↦ omega (arith, least other later d, le)
            ],
          )
  ]

  skip_row :
      (row : CronSchedule) (rows : ScheduleTable) (rest : Option CronSchedule)
      → is_claimable now row ≡ false
      → IsSearch rest rows
      → IsSearch rest (row ∷ rows)
  skip_row row rows none e none_there = λ other i c. elim i [
    | inl same ↦ true_ne_false (sym c ∙ (ap (is_claimable now) same ∙ e))
    | inr later ↦ none_there other later c
  ]
  skip_row row rows (some r) e (there, c, least) = (
    inr there,
    c,
    λ other i d. elim i [
      | inl same ↦ absurd (true_ne_false (sym d ∙ (ap (is_claimable now) same ∙ e)))
      | inr later ↦ least other later d
    ],
  )

  first_claimable-IsSearch :
      (rows : ScheduleTable) → IsSearch (first_claimable comes_before now rows) rows
  unfolding first_claimable
  first_claimable-IsSearch [] = λ other i c. i
  first_claimable-IsSearch (row ∷ rows) = elim (Bool-cases (is_claimable now row)) [
    | inl e ↦ rw e (
        add_claimable row rows (first_claimable comes_before now rows) e
          (first_claimable-IsSearch rows))
    | inr e ↦ rw e (
        skip_row row rows (first_claimable comes_before now rows) e (first_claimable-IsSearch rows))
  ]

  update-changes :
      (p : CronSchedule → Bool) (f : CronSchedule → CronSchedule) (row : CronSchedule)
      (rows : ScheduleTable)
      → In row rows
      → p row ≡ true
      → (update_schedules p f rows).0 ≡ true
  unfolding update_schedules
  update-changes p f row [] i e = absurd i
  update-changes p f row (r ∷ rows) (inl same) e =
      let here : p r ≡ true = ap p (sym same) ∙ e in rw here refl
  update-changes p f row (r ∷ rows) (inr i) e = elim (Bool-cases (p r)) [
    | inl here ↦ rw here refl
    | inr off ↦ rw (off, update-changes p f row rows i e) refl
  ]

  -- The guard of the update, for the row that was selected.
  abbrev guard : CronSchedule → CronSchedule → Bool
  guard schedule row =
      str_eq row.schedule_name schedule.schedule_name
      && ((row.next_fire_at_ms == schedule.next_fire_at_ms)
          && is_free_at row.lease_token row.lease_expires_at_ms now)

  guard_passes : (row : CronSchedule) → is_claimable now row ≡ true → guard row row ≡ true
  unfolding is_claimable
  guard_passes row e = let same = eq_refl row.schedule_name in ground (arith, same)

  -- What a claim does: nothing, and then no row may be claimed; or it returns a row of the table that
  -- may be claimed, with the new token, and none that may be claimed fires earlier. In the table that
  -- row is leased, and the rows with other names are the same.
  pub data IsClaimed (lease_ms : ℕ) (token : String) (rows : ScheduleTable)
      (result : Option CronSchedule × ScheduleTable) : Type 0 where
    nothing_due :
        result ≡ (none, rows)
        → ((other : CronSchedule) → In other rows → ¬ MayClaim now other)
        → IsClaimed lease_ms token rows result
    claimed :
        (row : CronSchedule) (after : ScheduleTable)
        → result ≡ (some (record row { lease_token = some token }), after)
        → In row rows
        → MayClaim now row
        → ((other : CronSchedule)
            → In other rows
            → MayClaim now other
            → row.next_fire_at_ms ≤ other.next_fire_at_ms)
        → In
            (record row { lease_token = some token; lease_expires_at_ms = some (now + lease_ms) })
            after
        → ((other : CronSchedule)
            → other.schedule_name ≢ row.schedule_name
            → In other rows ↔ In other after)
        → names_of after ≡ names_of rows
        → IsClaimed lease_ms token rows result

  guard_named :
      (schedule row : CronSchedule)
      → guard schedule row ≡ true
      → row.schedule_name ≡ schedule.schedule_name
  guard_named schedule row e =
      (eq_iff row.schedule_name schedule.schedule_name).0 (ground (arith, e))

  guard_other :
      (schedule row : CronSchedule)
      → row.schedule_name ≢ schedule.schedule_name
      → guard schedule row ≡ false
  guard_other schedule row h = rw (str_ne row.schedule_name schedule.schedule_name h) refl

  -- A claim returns nothing and changes nothing exactly if no schedule is due without a lease that
  -- is held; otherwise it returns one of these with the new token, of which none fires earlier,
  -- and in the table that row has the token and the end of the lease, every row with another name
  -- is kept, none is new, and the names and their order are the same.
  pub claim_next_cron_schedule-IsClaimed :
      (lease_ms : ℕ) (token : String) (rows : ScheduleTable)
      → IsClaimed lease_ms token rows
          (claim_next_cron_schedule comes_before now lease_ms token rows)
  unfolding claim_next_cron_schedule
  claim_next_cron_schedule-IsClaimed lease_ms token rows =
      let search = first_claimable-IsSearch rows in
      elim (Option-cases (first_claimable comes_before now rows)) [
        | inl nothing ↦
            let none_there = subst (λ r. IsSearch r rows) nothing search in
            nothing_due (rw (nothing, claim_next_cron_schedule) refl)
              (λ other i m. none_there other i (MayClaim-is_claimable now other m))
        | inr (row, found) ↦
            let (there, c, least) = subst (λ r. IsSearch r rows) found search in
            let write = leased token (now + lease_ms) in
            let after = (update_schedules (guard row) write rows).1 in
            let changed = update-changes (guard row) write row rows there (guard_passes row c) in
            claimed row after (rw (found, changed, claim_next_cron_schedule) refl) there
              (is_claimable-MayClaim now row c)
              (λ other i m. least other i (MayClaim-is_claimable now other m))
              (update-In (guard row) write row rows there (guard_passes row c))
              (λ other h. (
                λ i. update-kept (guard row) write other rows i (guard_other row other h),
                λ i.
                    update-old (guard row) write row.schedule_name (λ r e. guard_named row r e)
                      other rows i h,
              ))
              (update-names (guard row) write (λ r. refl) rows)
      ]
