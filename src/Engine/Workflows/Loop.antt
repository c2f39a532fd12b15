-- ===== src/Engine/Workflows/Loop.antt =====
-- The loop of `runWorkflowInstanceUntilSuspended` of packages/core/engine.ts, and
-- `processWorkflowQueuePayload`. The registered definitions are listed with name and version.
use chimpbase.Prelude.{
  ℕ, zero, suc, String, Bool, true, false, ◌&&◌, Option, none, some, List, [], ◌∷◌, ltb, ◌==◌,
  str_eq, concat, if◌then◌else◌,
}
use chimpbase.Prelude.Result.{Result, ok, err}
use chimpbase.Queue.{Payload, workflow_run}
use chimpbase.Workflow.{
  WorkflowStatus, completed, failed, running, sleeping, waiting_signal, WorkflowInstance,
}
use chimpbase.Engine.{Engine, Run, ◌>>=◌, ◌>>◌, pure, throw}
use chimpbase.Engine.Workflows.{
  get_workflow, set_workflow, claim_workflow_lease, release_workflow_lease, fail_workflow_instance,
}
use chimpbase.Engine.Workflows.Advance.{
  WorkflowDefinition, by_run, by_steps, step_at, run_step, apply_directive,
}

abbrev pub Definitions : Type 0
Definitions = List (String × ℕ × WorkflowDefinition)

-- `resolveWorkflowDefinitionByNameAndVersion`
unfoldable pub get_definition : String → ℕ → Definitions → Option WorkflowDefinition
get_definition name version [] = none
get_definition name version ((n, v, definition) ∷ rest) =
    if str_eq n name && (v == version) then some definition else get_definition name version rest

-- `wake_at_ms !== null && wake_at_ms > now`
abbrev pub is_future : Option ℕ → ℕ → Bool
is_future none now = false
is_future (some t) now = ltb now t

module _ (definitions : Definitions) (workflow_id : String) where
  abbrev pub run_definition : WorkflowInstance → Option WorkflowDefinition → Run Bool
  run_definition row none = throw (concat "workflow definition not found: " row.workflow_name)
  run_definition row (some (by_run run)) =
      run row.input_json row.state_json >>= apply_directive workflow_id row
  run_definition row (some (by_steps steps)) =
      run_step workflow_id row steps (step_at steps row.current_step_index)

  abbrev pub wake_up : WorkflowInstance → Run Bool
  wake_up row s =
      if is_future row.wake_at_ms s.now
      then (ok false, s)
      else (set_workflow workflow_id (λ r. record r { status = running; wake_at_ms = none })
            >> pure true)
          s

  abbrev pub run_row : WorkflowStatus → WorkflowInstance → Run Bool
  run_row completed row = pure false
  run_row failed row = pure false
  run_row sleeping row = wake_up row
  run_row running row =
      run_definition row (get_definition row.workflow_name row.workflow_version definitions)
  run_row waiting_signal row =
      run_definition row (get_definition row.workflow_name row.workflow_version definitions)

  abbrev pub run_loaded : Option WorkflowInstance → Run Bool
  run_loaded none = pure false
  run_loaded (some row) = run_row row.status row

  -- One round of the loop; the result says whether it goes on.
  unfoldable pub iterate : Run Bool
  unfolding get_workflow get_definition run_step apply_directive
  iterate s = run_loaded (get_workflow workflow_id s.db.workflows) s

  unfoldable pub run_rounds : ℕ → Run Unit
  unfolding iterate
  run_rounds zero = throw (concat "workflow exceeded maximum step iterations: " workflow_id)
  run_rounds (suc guard) =
      let rest = run_rounds guard in iterate >>= λ more. if more then rest else pure tt

  unfoldable pub run_workflow_instance_until_suspended : Run Unit
  unfolding run_rounds
  run_workflow_instance_until_suspended = run_rounds 1024

  abbrev pub on_workflows : (List WorkflowInstance → List WorkflowInstance) → Engine → Engine
  on_workflows f s = record s { db = record (s.db) { workflows = f s.db.workflows } }

  -- The `catch` and the `finally`.
  abbrev pub settle : String → Result String Unit × Engine → Result String Unit × Engine
  settle token (ok u, s) = (ok u, on_workflows (release_workflow_lease workflow_id token) s)
  settle token (err message, s) = (
    err message,
    on_workflows
        (λ rows.
          release_workflow_lease workflow_id token
            (fail_workflow_instance workflow_id message rows))
        s,
  )

  abbrev pub run_leased : String → Bool × List WorkflowInstance → Run Unit
  run_leased token (false, rows) s = (ok tt, s)
  run_leased token (true, rows) s =
      settle token (run_workflow_instance_until_suspended (on_workflows (λ old. rows) s))

  unfoldable pub process_workflow : ℕ → String → Run Unit
  unfolding claim_workflow_lease run_workflow_instance_until_suspended release_workflow_lease
      fail_workflow_instance
  process_workflow lease_ms token s =
      run_leased token (claim_workflow_lease s.now lease_ms token workflow_id s.db.workflows) s

unfoldable pub process_workflow_queue_payload : Definitions → ℕ → String → Payload → Run Unit
unfolding process_workflow
process_workflow_queue_payload definitions lease_ms token (workflow_run id) =
    if str_eq id ""
    then throw "workflow queue payload requires workflowId"
    else process_workflow definitions id lease_ms token
process_workflow_queue_payload definitions lease_ms token payload =
    throw "workflow queue payload requires workflowId"
