-- ===== src/Engine/Workflows/Inner.antt =====
-- Inside a transaction the workflow engine neither ends it nor commits events, if the code of the
-- definitions does not.
use chimpbase.Prelude.{
  ℕ, zero, suc, ◌≡◌, refl, subst, inl, inr, String, Bool, true, false, Option, none, some, List, [],
  ◌∷◌, All, arith, Bool-cases, Option-cases,
}
use chimpbase.Prelude.Int.{ℤ}
use chimpbase.Workflow.{WorkflowInstance, WorkflowSignal}
use chimpbase.Engine.{Engine, Run, ◌>>◌, pure}
use chimpbase.Engine.Transaction.{Keeps, IsInner, on_db-IsInner, throw-IsInner, >>=-IsInner}
use chimpbase.Engine.Workflows.{set_workflow, enqueue_workflow, find_pending_workflow_signal}
use chimpbase.Engine.Workflows.Advance.{
  OnTimeout, fail_it, go_on, Step, action_step, sleep_step, wait_step, step_at, wake_time, is_past,
  is_waiting, enqueue_wake, consume, timed_out, step_timeout, go_next, sleep_for, wait_at, run_step,
  Directive, transition, complete, fail, sleep, wait_for_signal, restart, run_timeout, run_wait,
  apply_directive,
}

pub same : (s : Engine) → Keeps s s
same s = record { depth = refl; saved = refl; committed = refl; published = refl }

pure-IsInner : (A : Type 0) (a : A) → IsInner (pure {A = A} a)
pure-IsInner A a s open_ = same s

enqueue_workflow-IsInner : (id : String) (delay : Option ℤ) → IsInner (enqueue_workflow id delay)
enqueue_workflow-IsInner id delay s open_ = record {
  depth = refl;
  saved = refl;
  committed = refl;
  published = refl;
}

-- A statement on the table, and then a value.
pub set-IsInner :
    (id : String) (f : WorkflowInstance → WorkflowInstance) (more : Bool)
    → IsInner (set_workflow id f >> pure more)
set-IsInner id f more =
    >>=-IsInner (set_workflow id f) (λ u. pure more) (on_db-IsInner _) (λ u. pure-IsInner Bool more)

-- A statement, a job, and then a value.
suspend-IsInner :
    (id : String) (f : WorkflowInstance → WorkflowInstance) (m : Run Unit) (more : Bool)
    → IsInner m
    → IsInner (set_workflow id f >> m >> pure more)
suspend-IsInner id f m more inner =
    >>=-IsInner (set_workflow id f >> m) (λ u. pure more)
      (>>=-IsInner (set_workflow id f) (λ u. m) (on_db-IsInner _) (λ u. inner))
      (λ u. pure-IsInner Bool more)

enqueue_wake-IsInner :
    (id : String) (wake : Option ℕ) (now : ℕ) → IsInner (enqueue_wake id wake now)
enqueue_wake-IsInner id none now = pure-IsInner Unit tt
enqueue_wake-IsInner id (some wake) now = enqueue_workflow-IsInner id _

-- The code that a step calls keeps the transaction.
abbrev pub IsInnerStep : Step → Type 0
IsInnerStep (action_step id action) = (input state : String) → IsInner (action input state)
IsInnerStep (sleep_step id delay) = Unit
IsInnerStep (wait_step id signal on_signal timeout on_timeout) = Unit

pub step_at-All :
    (steps : List Step) (index : ℕ) (step : Step)
    → All IsInnerStep steps
    → step_at steps index ≡ some step
    → IsInnerStep step
unfolding step_at
step_at-All [] index step a e = cc
step_at-All (st ∷ steps) zero step a e =
    let same_step : st ≡ step = ground arith in subst IsInnerStep same_step a.0
step_at-All (st ∷ steps) (suc index) step a e = step_at-All steps index step a.1 e

module _ (workflow_id : String) (row : WorkflowInstance) (steps : List Step) where
  step_timeout-IsInner :
      (signal : String) (t : OnTimeout) → IsInner (step_timeout workflow_id row steps signal t)
  step_timeout-IsInner signal fail_it = throw-IsInner Bool (timed_out workflow_id signal)
  step_timeout-IsInner signal (go_on f) = set-IsInner workflow_id _ true

  sleep_for-IsInner : (delay : ℕ) → IsInner (sleep_for workflow_id row steps delay)
  sleep_for-IsInner zero s open_ = set-IsInner workflow_id _ true s open_
  sleep_for-IsInner (suc delay) s open_ =
      suspend-IsInner workflow_id _ (enqueue_workflow workflow_id _) false
        (enqueue_workflow-IsInner workflow_id _) s open_

  wait_at-IsInner :
      (id signal : String) (wake : Option ℕ) (t : OnTimeout)
      → IsInner (wait_at workflow_id row steps id signal wake t)
  wait_at-IsInner id signal wake t s open_ =
      let timeout = step_timeout-IsInner signal t s open_ in
      elim (Bool-cases (is_waiting row.status)) [
        | inl waits ↦ elim (Bool-cases (is_past row.wake_at_ms s.now)) [
          | inl past ↦ rw (waits, past) timeout
          | inr future ↦ rw (waits, future) (same s)
        ]
        | inr runs ↦ elim (Bool-cases (is_past wake s.now)) [
          | inl past ↦ rw (runs, past) timeout
          | inr future ↦
              rw (runs, future)
                (suspend-IsInner workflow_id _ (enqueue_wake workflow_id wake s.now) false
                  (enqueue_wake-IsInner workflow_id wake s.now) s open_)
        ]
      ]

  go_on-IsInner :
      (found : WorkflowSignal) (state : String)
      → IsInner (consume found >> go_next workflow_id row steps state)
  go_on-IsInner found state =
      >>=-IsInner (consume found) (λ u. go_next workflow_id row steps state) (on_db-IsInner _)
        (λ u. set-IsInner workflow_id _ true)

  pub run_step-IsInner :
      (step : Option Step)
      → ((st : Step) → step ≡ some st → IsInnerStep st)
      → IsInner (run_step workflow_id row steps step)
  unfolding run_step
  run_step-IsInner none inner s open_ = set-IsInner workflow_id _ false s open_
  run_step-IsInner (some (action_step id action)) inner s open_ =
      >>=-IsInner (action row.input_json row.state_json) (go_next workflow_id row steps)
        (inner (action_step id action) refl row.input_json row.state_json)
        (λ state. set-IsInner workflow_id _ true) s open_
  run_step-IsInner (some (sleep_step id delay)) inner s open_ = sleep_for-IsInner _ s open_
  run_step-IsInner (some (wait_step id signal on_signal timeout on_timeout)) inner s open_ =
      elim (Option-cases (find_pending_workflow_signal workflow_id signal s.db.signals)) [
        | inr (found, e) ↦
            rw (e, run_step)
              (go_on-IsInner found (on_signal row.input_json found.payload_json row.state_json) s
                open_)
        | inl e ↦
            rw (e, run_step)
              (wait_at-IsInner id signal (wake_time s.now (timeout row.input_json row.state_json))
                on_timeout s open_)
      ]

module _ (workflow_id : String) (row : WorkflowInstance) where
  run_timeout-IsInner :
      (step_id : Option String) (signal : String) (t : OnTimeout)
      → IsInner (run_timeout workflow_id row step_id signal t)
  run_timeout-IsInner step_id signal fail_it = set-IsInner workflow_id _ false
  run_timeout-IsInner step_id signal (go_on f) = set-IsInner workflow_id _ true

  run_wait-IsInner :
      (state : String) (step_id : Option String) (signal : String) (wake : Option ℕ) (t : OnTimeout)
      → IsInner (run_wait workflow_id row state step_id signal wake t)
  run_wait-IsInner state step_id signal wake t s open_ =
      let timeout = run_timeout-IsInner step_id signal t s open_ in
      elim (Bool-cases (is_waiting row.status)) [
        | inl waits ↦ elim (Bool-cases (is_past row.wake_at_ms s.now)) [
          | inl past ↦ rw (waits, past) timeout
          | inr future ↦ rw (waits, future) (same s)
        ]
        | inr runs ↦ elim (Bool-cases (is_past wake s.now)) [
          | inl past ↦ rw (runs, past) timeout
          | inr future ↦
              rw (runs, future)
                (suspend-IsInner workflow_id _ (enqueue_wake workflow_id wake s.now) false
                  (enqueue_wake-IsInner workflow_id wake s.now) s open_)
        ]
      ]

  restart-IsInner :
      (found : WorkflowSignal) (state : String) (step_id : Option String)
      → IsInner (consume found >> restart workflow_id row state step_id)
  restart-IsInner found state step_id =
      >>=-IsInner (consume found) (λ u. restart workflow_id row state step_id) (on_db-IsInner _)
        (λ u. set-IsInner workflow_id _ true)

  pub apply_directive-IsInner : (d : Directive) → IsInner (apply_directive workflow_id row d)
  unfolding apply_directive
  apply_directive-IsInner (transition state step_id) s open_ =
      set-IsInner workflow_id _ true s open_
  apply_directive-IsInner (complete state) s open_ = set-IsInner workflow_id _ false s open_
  apply_directive-IsInner (fail state step_id error) s open_ =
      set-IsInner workflow_id _ false s open_
  apply_directive-IsInner (sleep state step_id zero) s open_ =
      set-IsInner workflow_id _ true s open_
  apply_directive-IsInner (sleep state step_id (suc delay)) s open_ =
      suspend-IsInner workflow_id _ (enqueue_workflow workflow_id _) false
        (enqueue_workflow-IsInner workflow_id _) s open_
  apply_directive-IsInner (wait_for_signal state step_id signal on_signal timeout on_timeout) s
        open_ =
      elim (Option-cases (find_pending_workflow_signal workflow_id signal s.db.signals)) [
        | inr (found, e) ↦
            rw (e, apply_directive)
              (restart-IsInner found (on_signal row.input_json found.payload_json row.state_json)
                step_id s open_)
        | inl e ↦
            rw (e, apply_directive)
              (run_wait-IsInner state step_id signal
                (wake_time s.now (timeout row.input_json row.state_json)) on_timeout s open_)
      ]
