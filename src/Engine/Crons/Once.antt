-- ===== src/Engine/Crons/Once.antt =====
-- Every fire time of a schedule is enqueued at most once.
use chimpbase.Prelude.{
  ℕ, ◌≡◌, ◌↔◌, refl, sym, subst, ap, ◌∙◌, ◌⊎◌, inl, inr, String, Bool, true, false, Option, none,
  some, List, [], ◌∷◌, ◌++◌, In, arith, str_eq, eq_iff, Bool-cases, Option-cases,
}
use chimpbase.Prelude.Result.{Result, ok, err}
use chimpbase.Queue.{
  Payload, json, cron_run, subscription_run, workflow_run, dead_letter, QueueJob, JobTable,
  queue_enqueue,
}
use chimpbase.Cron.Field.{Number}
use chimpbase.Schedules.{
  CronRun, CronSchedule, ScheduleTable, has_run, insert_cron_run, claim_next_cron_schedule,
  release_cron_schedule_lease,
}
use chimpbase.Engine.{Db, Engine, run_in_transaction, begin_transaction, enter}
use chimpbase.Engine.Transaction.{IsIdle, IsInner, Keeps, run_in_transaction-keeps}
use chimpbase.Engine.Jobs.{CronRegistration, get_cron, internal_cron_queue_name}
use chimpbase.Engine.Crons.{
  record_run, or_throw, record_cron_run, on_schedules, or_release, run_window,
  process_claimed_schedule, process_next_cron_schedule,
}

abbrev Distinct : List CronRun → Type 0
Distinct [] = Unit
Distinct (x ∷ xs) = ¬ In x xs × Distinct xs

abbrev add_run : Payload → List CronRun → List CronRun
add_run (cron_run name fire_at_ms) runs = (name, fire_at_ms) ∷ runs
add_run (json text) runs = runs
add_run (subscription_run id name text) runs = runs
add_run (workflow_run id) runs = runs
add_run (dead_letter attempts error at payload queue) runs = runs

-- The runs that the jobs of a table stand for.
abbrev pub runs_of : JobTable → List CronRun
runs_of [] = []
runs_of (row ∷ rows) = add_run row.payload (runs_of rows)

-- No run has two jobs, and every run with a job is recorded.
pub record IsOnce (db : Db) : Type 0 where
  pub distinct : Distinct (runs_of db.jobs)
  pub recorded : (r : CronRun) → In r (runs_of db.jobs) → In r db.cron_runs

In-append : (r : CronRun) (xs ys : List CronRun) → In r (xs ++ ys) ↔ (In r xs ⊎ In r ys)
In-append r [] ys = (λ i. inr i, λ i. elim i [ inl j ↦ absurd j | inr j ↦ j ])
In-append r (x ∷ xs) ys = (
  λ i. elim i [
    | inl e ↦ inl (inl e)
    | inr j ↦ elim ((In-append r xs ys).0 j) [ inl k ↦ inl (inr k) | inr k ↦ inr k ]
  ],
  λ i. elim i [
    | inl (inl e) ↦ inl e
    | inl (inr j) ↦ inr ((In-append r xs ys).1 (inl j))
    | inr j ↦ inr ((In-append r xs ys).1 (inr j))
  ],
)

Distinct-append :
    (r : CronRun) (xs : List CronRun) → Distinct xs → ¬ In r xs → Distinct (xs ++ r ∷ [])
Distinct-append r [] d new = (λ i. i, tt)
Distinct-append r (x ∷ xs) d new = (
  λ i. elim ((In-append x xs (r ∷ [])).0 i) [
    | inl j ↦ d.0 j
    | inr (inl e) ↦ new (inl (sym e))
    | inr (inr j) ↦ j
  ],
  Distinct-append r xs d.1 (λ i. new (inr i)),
)

add_run-append :
    (payload : Payload) (runs : List CronRun) (last : CronRun)
    → add_run payload (runs ++ last ∷ []) ≡ add_run payload runs ++ last ∷ []
add_run-append (cron_run name fire_at_ms) runs last = refl
add_run-append (json text) runs last = refl
add_run-append (subscription_run id name text) runs last = refl
add_run-append (workflow_run id) runs last = refl
add_run-append (dead_letter attempts error at payload queue) runs last = refl

runs_of-append :
    (name : String) (t : ℕ) (rows : JobTable) (last : QueueJob)
    → last.payload ≡ cron_run name t
    → runs_of (rows ++ last ∷ []) ≡ runs_of rows ++ (name, t) ∷ []
runs_of-append name t [] last e = rw e refl
runs_of-append name t (row ∷ rows) last e =
    ap (add_run row.payload) (runs_of-append name t rows last e)
    ∙ add_run-append row.payload (runs_of rows) (name, t)

runs_of-queue_enqueue :
    (now : ℕ) (queue name : String) (t : ℕ) (rows : JobTable)
    → runs_of (queue_enqueue now queue (cron_run name t) none rows) ≡ runs_of rows ++ (name, t) ∷ []
unfolding queue_enqueue
runs_of-queue_enqueue now queue name t rows = runs_of-append name t rows _ refl

In→has_run :
    (name : String) (t : ℕ) (runs : List CronRun) → In (name, t) runs → has_run name t runs ≡ true
unfolding has_run
In→has_run name t [] i = absurd i
In→has_run name t ((n, u) ∷ runs) (inl e) =
    let same_name : str_eq n name ≡ true = (eq_iff n name).1 (ap (λ (r : CronRun). r.0) (sym e)) in
    let same_time : t ≡ u = ap (λ (r : CronRun). r.1) e in ground (arith, same_name, same_time)
In→has_run name t ((n, u) ∷ runs) (inr i) = ground (arith, In→has_run name t runs i)

module _ (name : String) (persisted fire next : ℕ) (token : String) where
  record_run-IsOnce :
      (now : ℕ) (db : Db) → IsOnce db → IsOnce (record_run name persisted fire next token now db).1
  unfolding record_run insert_cron_run
  record_run-IsOnce now db once = elim (Bool-cases (has_run name fire db.cron_runs)) [
    | inl old ↦ record { distinct = rw old (once.distinct); recorded = rw old (once.recorded) }
    | inr new ↦
        let jobs = runs_of-queue_enqueue now internal_cron_queue_name name fire db.jobs in
        let fresh : ¬ In (name, fire) (runs_of db.jobs) = λ i.
          true_ne_false
            (sym (In→has_run name fire db.cron_runs (once.recorded (name, fire) i)) ∙ new) in
        record {
          distinct =
              rw (new, jobs) (Distinct-append (name, fire) (runs_of db.jobs) once.distinct fresh);
          recorded =
              rw (new, jobs)
                (λ r i.
                  (In-append r db.cron_runs ((name, fire) ∷ [])).1
                    (elim ((In-append r (runs_of db.jobs) ((name, fire) ∷ [])).0 i) [
                      | inl j ↦ inl (once.recorded r j)
                      | inr j ↦ inr j
                    ]));
        }
  ]
    where
      true_ne_false : true ≡ false → ⊥
      true_ne_false e = cc

  or_throw-db : (s : Engine) (r : Bool × Db) → (or_throw name s r).1.db ≡ r.1
  or_throw-db s (true, db) = refl
  or_throw-db s (false, db) = refl

  or_throw-Keeps : (s : Engine) (r : Bool × Db) → Keeps s (or_throw name s r).1
  or_throw-Keeps s (true, db) = record {
    depth = refl;
    saved = refl;
    committed = refl;
    published = refl;
  }
  or_throw-Keeps s (false, db) = record {
    depth = refl;
    saved = refl;
    committed = refl;
    published = refl;
  }

  pub record_cron_run-IsInner : IsInner (record_cron_run name persisted fire next token)
  unfolding record_cron_run
  record_cron_run-IsInner s open_ =
      or_throw-Keeps s (record_run name persisted fire next token s.now s.db)

  record_cron_run-IsOnce :
      (s : Engine) → IsOnce s.db → IsOnce (record_cron_run name persisted fire next token s).1.db
  unfolding record_cron_run
  record_cron_run-IsOnce s once =
      rw (or_throw-db s (record_run name persisted fire next token s.now s.db))
        (record_run-IsOnce s.now s.db once)

  transaction-IsOnce :
      (s : Engine)
      → IsIdle s
      → IsOnce s.db
      → IsOnce (run_in_transaction (record_cron_run name persisted fire next token) s).1.db
  unfolding begin_transaction
  transaction-IsOnce s idle once =
      run_in_transaction-keeps (record_cron_run name persisted fire next token)
        record_cron_run-IsInner IsOnce
        (λ db events o. record { distinct = o.distinct; recorded = o.recorded }) s idle once
        (λ a t returns.
          subst (λ (r : Result String Unit × Engine). IsOnce r.1.db) returns
            (record_cron_run-IsOnce (enter (begin_transaction s)) once))

same_jobs :
    (s : Engine) (f : ScheduleTable → ScheduleTable) → IsOnce s.db → IsOnce (on_schedules f s).db
same_jobs s f once = record { distinct = once.distinct; recorded = once.recorded }

or_release-IsOnce :
    {A : Type 0} (name token : String) (value : A) (r : Result String Unit × Engine)
    → IsOnce r.1.db
    → IsOnce (or_release name token value r).1.db
or_release-IsOnce name token value (ok u, s) once = once
or_release-IsOnce name token value (err e, s) once =
    same_jobs s (release_cron_schedule_lease name token) once

module _ (other : Number) (comes_before : String → String → Bool)
    (crons : List CronRegistration) where
  run_window-IsOnce :
      (claimed : CronSchedule) (token : String) (window : Result String (ℕ × ℕ)) (s : Engine)
      → IsIdle s
      → IsOnce s.db
      → IsOnce (run_window other comes_before crons claimed token window s).1.db
  run_window-IsOnce claimed token (ok (fire, next)) s idle once =
      or_release-IsOnce claimed.schedule_name token _ _ (
        transaction-IsOnce claimed.schedule_name claimed.next_fire_at_ms fire next token s idle
          once)
  run_window-IsOnce claimed token (err e) s idle once = once

  claimed-IsOnce :
      (token : String) (c : Option CronSchedule × ScheduleTable) (s : Engine)
      → IsIdle s
      → IsOnce s.db
      → IsOnce (process_claimed_schedule other comes_before crons token c s).1.db
  claimed-IsOnce token (none, rows) s idle once = once
  claimed-IsOnce token (some claimed, rows) s idle once =
      let idle' : IsIdle (on_schedules (λ old. rows) s) = record {
        depth = idle.depth;
        saved = idle.saved;
        pending = idle.pending;
      } in
      let once' = same_jobs s (λ old. rows) once in
      elim (Option-cases (get_cron claimed.schedule_name crons)) [
        | inl gone ↦
            rw (gone, process_claimed_schedule)
              (record { distinct = once.distinct; recorded = once.recorded })
        | inr (registration, there) ↦
            rw (there, process_claimed_schedule) (run_window-IsOnce claimed token _ _ idle' once')
      ]

  -- Processing the next cron schedule on an idle engine keeps that no two jobs stand for the same
  -- fire time of a schedule and that every fire time with a job is recorded.
  pub process_next_cron_schedule-IsOnce :
      (lease_ms : ℕ) (token : String) (s : Engine)
      → IsIdle s
      → IsOnce s.db
      → IsOnce (process_next_cron_schedule other comes_before crons lease_ms token s).1.db
  unfolding process_next_cron_schedule
  process_next_cron_schedule-IsOnce lease_ms token s idle once =
      claimed-IsOnce token
        (claim_next_cron_schedule comes_before s.now lease_ms token s.db.cron_schedules) s idle once
