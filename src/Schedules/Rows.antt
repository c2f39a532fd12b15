-- ===== src/Schedules/Rows.antt =====
-- The rows of the table of schedules under an update.
use chimpbase.Prelude.{
  ◌≡◌, ◌≢◌, refl, sym, ap, subst, ◌∙◌, inl, inr, String, Bool, true, false, List, [], ◌∷◌, In, map,
  Bool-cases, if◌then◌else◌,
}
use chimpbase.Schedules.{CronSchedule, ScheduleTable, update_schedules}

abbrev pub names_of : ScheduleTable → List String
names_of rows = map (λ row. row.schedule_name) rows

module _ (p : CronSchedule → Bool) (f : CronSchedule → CronSchedule) where
  pub update-In :
      (row : CronSchedule) (rows : ScheduleTable)
      → In row rows
      → p row ≡ true
      → In (f row) (update_schedules p f rows).1
  unfolding update_schedules
  update-In row [] i e = absurd i
  update-In row (r ∷ rows) (inl same) e =
      let here : p r ≡ true = ap p (sym same) ∙ e in rw here (inl (ap f same))
  update-In row (r ∷ rows) (inr i) e = elim (Bool-cases (p r)) [
    | inl here ↦ rw here (inr (update-In row rows i e))
    | inr off ↦ rw off (inr (update-In row rows i e))
  ]

  -- A row that the update does not touch.
  pub update-kept :
      (other : CronSchedule) (rows : ScheduleTable)
      → In other rows
      → p other ≡ false
      → In other (update_schedules p f rows).1
  unfolding update_schedules
  update-kept other [] i e = absurd i
  update-kept other (r ∷ rows) (inl same) e =
      let off : p r ≡ false = ap p (sym same) ∙ e in rw off (inl same)
  update-kept other (r ∷ rows) (inr i) e = elim (Bool-cases (p r)) [
    | inl here ↦ rw here (inr (update-kept other rows i e))
    | inr off ↦ rw off (inr (update-kept other rows i e))
  ]

  update-head :
      (r : CronSchedule) (rows : ScheduleTable) (b : Bool)
      → p r ≡ b
      → (update_schedules p f (r ∷ rows)).1 ≡ (if b then f r else r) ∷ (update_schedules p f rows).1
  unfolding update_schedules
  update-head r rows true e = rw e refl
  update-head r rows false e = rw e refl

  pub update-old :
      (name : String)
      → ((r : CronSchedule) → p r ≡ true → (f r).schedule_name ≡ name)
      → (other : CronSchedule) (rows : ScheduleTable) → In other (update_schedules p f rows).1
      → other.schedule_name ≢ name
      → In other rows
  update-old name named other [] i h = unfold update_schedules in i
  update-old name named other (r ∷ rows) i h = elim (Bool-cases (p r)) [
    | inl here ↦ elim (subst (In other) (update-head r rows true here) i) [
      | inl same ↦ absurd (h (ap (λ (c : CronSchedule). c.schedule_name) same ∙ named r here))
      | inr there ↦ inr (update-old name named other rows there h)
    ]
    | inr off ↦ elim (subst (In other) (update-head r rows false off) i) [
      | inl same ↦ inl same
      | inr there ↦ inr (update-old name named other rows there h)
    ]
  ]

  pub update-names :
      ((r : CronSchedule) → (f r).schedule_name ≡ r.schedule_name)
      → (rows : ScheduleTable) → names_of (update_schedules p f rows).1 ≡ names_of rows
  unfolding update_schedules
  update-names keeps [] = refl
  update-names keeps (r ∷ rows) = elim (Bool-cases (p r)) [
    | inl here ↦ rw (here, keeps r) (ap (λ ns. r.schedule_name ∷ ns) (update-names keeps rows))
    | inr off ↦ rw off (ap (λ ns. r.schedule_name ∷ ns) (update-names keeps rows))
  ]
