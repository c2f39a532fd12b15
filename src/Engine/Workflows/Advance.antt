-- ===== src/Engine/Workflows/Advance.antt =====
-- `runWorkflowInstanceUntilSuspended` of packages/core/engine.ts, the directives of a `run` function,
-- and `processWorkflowQueuePayload`. Inputs, states and payloads are JSON texts; the functions of a
-- definition are code of the application, on these texts.
use chimpbase.Prelude.{
  ℕ, zero, suc, ◌+◌, ◌-◌, String, Bool, true, false, Option, none, some, List, [], ◌∷◌, leb, length,
  concat, if◌then◌else◌,
}
use chimpbase.Prelude.Int.{ℤ, pos}
use chimpbase.Prelude.Result.{ok}
use chimpbase.Queue.{delay_of}
use chimpbase.Workflow.{
  WorkflowStatus, completed, failed, running, sleeping, waiting_signal, WorkflowInstance,
  WorkflowSignal,
}
use chimpbase.Engine.{Run, ◌>>=◌, ◌>>◌, pure, throw, on_db}
use chimpbase.Engine.Workflows.{
  set_workflow, enqueue_workflow, unlease_row, find_pending_workflow_signal, consume_signal,
}

-- `onTimeout`; the second also stands for no `onTimeout`, with the function that returns the state.
pub data OnTimeout : Type 0 where
  fail_it : OnTimeout
  go_on : (String → String → String) → OnTimeout

-- The arguments of the functions are input and state, with the payload of a signal between them.
-- `action` stands for `args`, the call of the action and `onResult`.
pub data Step : Type 0 where
  action_step : (id : String) → (action : String → String → Run String) → Step
  sleep_step : (id : String) → (delay_ms : String → String → ℤ) → Step
  wait_step :
      (id signal : String)
      → (on_signal : String → String → String → String) → (timeout_ms : String → String → Option ℤ)
      → (on_timeout : OnTimeout) → Step

pub data Directive : Type 0 where
  transition : (state : String) → (step_id : Option String) → Directive
  complete : (state : String) → Directive
  fail : (state : String) → (step_id : Option String) → (error : String) → Directive
  sleep : (state : String) → (step_id : Option String) → (delay_ms : ℕ) → Directive
  wait_for_signal :
      (state : String)
      → (step_id : Option String) → (signal : String)
      → (on_signal : String → String → String → String) → (timeout_ms : String → String → Option ℤ)
      → (on_timeout : OnTimeout) → Directive

pub data WorkflowDefinition : Type 0 where
  by_run : (String → String → Run Directive) → WorkflowDefinition
  by_steps : List Step → WorkflowDefinition

abbrev pub step_id_of : Step → String
step_id_of (action_step id action) = id
step_id_of (sleep_step id delay) = id
step_id_of (wait_step id signal on_signal timeout on_timeout) = id

-- `definition.steps[index]`, and its `?.id ?? null`.
unfoldable pub step_at : List Step → ℕ → Option Step
step_at [] index = none
step_at (step ∷ steps) zero = some step
step_at (step ∷ steps) (suc index) = step_at steps index

abbrev pub id_of : Option Step → Option String
id_of none = none
id_of (some step) = some (step_id_of step)

-- `status = 'running'`, with the next state, step id and index; no wake-up time and no error.
abbrev pub running_row : String → Option String → ℕ → WorkflowInstance → WorkflowInstance
running_row state step_id index row = record row {
  status = running;
  state_json = state;
  current_step_id = step_id;
  current_step_index = index;
  wake_at_ms = none;
  last_error = none;
}

abbrev pub completed_row : String → ℕ → WorkflowInstance → WorkflowInstance
completed_row state index row = record (unlease_row row) {
  status = completed;
  state_json = state;
  current_step_id = none;
  current_step_index = index;
  wake_at_ms = none;
  last_error = none;
}

abbrev pub wake_time : ℕ → Option ℤ → Option ℕ
wake_time now none = none
wake_time now (some timeout) = some (now + delay_of (some timeout))

-- `t !== null && t <= now`
abbrev pub is_past : Option ℕ → ℕ → Bool
is_past none now = false
is_past (some t) now = leb t now

abbrev pub is_waiting : WorkflowStatus → Bool
is_waiting waiting_signal = true
is_waiting _ = false

abbrev pub enqueue_wake : String → Option ℕ → ℕ → Run Unit
enqueue_wake workflow_id none now = pure tt
enqueue_wake workflow_id (some wake) now = enqueue_workflow workflow_id (some (pos (wake - now)))

abbrev pub consume : WorkflowSignal → Run Unit
consume signal = on_db (λ db. record db { signals = consume_signal signal.id db.signals })

abbrev pub timed_out : String → String → String
timed_out workflow_id signal =
    concat "workflow signal timed out: " (concat workflow_id (concat "/" signal))

module _ (workflow_id : String) (row : WorkflowInstance) where
  -- The cases of a step; the result says whether the loop goes on.
  module _ (steps : List Step) where
    abbrev pub next_index : ℕ
    next_index = row.current_step_index + 1

    abbrev pub next_id : Option String
    next_id = id_of (step_at steps next_index)

    abbrev pub go_next : String → Run Bool
    go_next state = set_workflow workflow_id (running_row state next_id next_index) >> pure true

    -- `handleWorkflowSignalTimeout`
    abbrev pub step_timeout : String → OnTimeout → Run Bool
    step_timeout signal fail_it = throw (timed_out workflow_id signal)
    step_timeout signal (go_on f) = go_next (f row.input_json row.state_json)

    abbrev pub sleep_for : ℕ → Run Bool
    sleep_for zero s =
        (set_workflow workflow_id
              (λ r. record r { current_step_id = next_id; current_step_index = next_index })
            >> pure true)
          s
    sleep_for (suc delay) s =
        (set_workflow workflow_id (λ r. record r {
          status = sleeping;
          current_step_id = next_id;
          current_step_index = next_index;
          wake_at_ms = some (s.now + suc delay);
          last_error = none;
        })
            >> enqueue_workflow workflow_id (some (pos (suc delay)))
            >> pure false)
          s

    abbrev pub wait_at : String → String → Option ℕ → OnTimeout → Run Bool
    wait_at id signal wake on_timeout s =
        if is_waiting row.status
        then (if is_past row.wake_at_ms s.now
            then step_timeout signal on_timeout s
            else (ok false, s))
        else if is_past wake s.now
        then step_timeout signal on_timeout s
        else (set_workflow workflow_id (λ r. record r {
          status = waiting_signal;
          current_step_id = some id;
          wake_at_ms = wake;
          last_error = none;
        })
              >> enqueue_wake workflow_id wake s.now
              >> pure false)
            s

    unfoldable pub run_step : Option Step → Run Bool
    unfolding step_at find_pending_workflow_signal consume_signal
    run_step none =
        set_workflow workflow_id (λ r. completed_row r.state_json (length steps) r) >> pure false
    run_step (some (action_step id action)) = action row.input_json row.state_json >>= go_next
    run_step (some (sleep_step id delay_ms)) =
        sleep_for (delay_of (some (delay_ms row.input_json row.state_json)))
    run_step (some (wait_step id signal on_signal timeout_ms on_timeout)) = λ s.
        elim (find_pending_workflow_signal workflow_id signal s.db.signals) [
          | some found ↦
              (consume found
                  >> go_next (on_signal row.input_json found.payload_json row.state_json))
                s
          | none ↦
              wait_at id signal (wake_time s.now (timeout_ms row.input_json row.state_json))
                on_timeout s
        ]

  abbrev pub restart : String → Option String → Run Bool
  restart state step_id = set_workflow workflow_id (running_row state step_id 0) >> pure true

  abbrev pub or_signal : Option String → String → Option String
  or_signal none signal = some signal
  or_signal (some id) signal = some id

  -- `handleWorkflowRunSignalTimeout`
  abbrev pub run_timeout : Option String → String → OnTimeout → Run Bool
  run_timeout step_id signal fail_it =
      set_workflow workflow_id (λ r. record (unlease_row r) {
        status = failed;
        current_step_id = or_signal step_id signal;
        wake_at_ms = none;
        last_error = some (timed_out workflow_id signal);
      })
      >> pure false
  run_timeout step_id signal (go_on f) = restart (f row.input_json row.state_json) step_id

  abbrev pub run_wait : String → Option String → String → Option ℕ → OnTimeout → Run Bool
  run_wait state step_id signal wake on_timeout s =
      if is_waiting row.status
      then (if is_past row.wake_at_ms s.now
          then run_timeout step_id signal on_timeout s
          else (ok false, s))
      else if is_past wake s.now
      then run_timeout step_id signal on_timeout s
      else (set_workflow workflow_id (λ r. record r {
        state_json = state;
        status = waiting_signal;
        current_step_id = or_signal step_id signal;
        current_step_index = 0;
        wake_at_ms = wake;
        last_error = none;
      })
            >> enqueue_wake workflow_id wake s.now
            >> pure false)
          s

  -- `applyWorkflowRunDirective` and `applyWorkflowWaitForSignalDirective`
  unfoldable pub apply_directive : Directive → Run Bool
  unfolding find_pending_workflow_signal consume_signal
  apply_directive (transition state step_id) = restart state step_id
  apply_directive (complete state) = set_workflow workflow_id (completed_row state 0) >> pure false
  apply_directive (fail state step_id error) =
      set_workflow workflow_id (λ r. record (unlease_row r) {
        state_json = state;
        status = failed;
        current_step_id = step_id;
        wake_at_ms = none;
        last_error = some error;
      })
      >> pure false
  apply_directive (sleep state step_id zero) = restart state step_id
  apply_directive (sleep state step_id (suc delay)) = λ s.
      (set_workflow workflow_id (λ r. record r {
        state_json = state;
        status = sleeping;
        current_step_id = step_id;
        current_step_index = 0;
        wake_at_ms = some (s.now + suc delay);
        last_error = none;
      })
          >> enqueue_workflow workflow_id (some (pos (suc delay)))
          >> pure false)
        s
  apply_directive (wait_for_signal state step_id signal on_signal timeout_ms on_timeout) = λ s.
      elim (find_pending_workflow_signal workflow_id signal s.db.signals) [
        | some found ↦
            (consume found
                >> restart (on_signal row.input_json found.payload_json row.state_json) step_id)
              s
        | none ↦
            run_wait state step_id signal
              (wake_time s.now (timeout_ms row.input_json row.state_json)) on_timeout s
      ]
