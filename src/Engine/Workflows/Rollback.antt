-- ===== src/Engine/Workflows/Rollback.antt =====
-- What is left of a workflow that throws.
use chimpbase.Prelude.{
  ℕ, zero, suc, ◌≡◌, refl, sym, subst, ap, ◌∙◌, inl, inr, String, Bool, true, false, Option, none,
  some, List, [], ◌∷◌, All, ◌&&◌, ◌==◌, arith, str_eq, Bool-cases, if◌then◌else◌, concat,
}
use chimpbase.Prelude.Result.{Result, ok, err}
use chimpbase.Queue.{
  Payload, json, cron_run, subscription_run, workflow_run, dead_letter, ClaimedJob,
}
use chimpbase.Workflow.{
  WorkflowStatus, completed, failed, running, sleeping, waiting_signal, WorkflowInstance,
}
use chimpbase.Engine.{Event, Engine, Run, pure, enter, begin_transaction}
use chimpbase.Engine.Transaction.{IsIdle, Keeps, IsInner, throw-IsInner, >>=-IsInner}
use chimpbase.Engine.Jobs.{Worker, Registry, get_worker, fail_queue_job, process_claimed_queue_job}
use chimpbase.Engine.Jobs.Outcome.{process-rolled_back}
use chimpbase.Engine.Workflows.{get_workflow, claim_workflow_lease}
use chimpbase.Engine.Workflows.Advance.{
  WorkflowDefinition, by_run, by_steps, step_at, apply_directive,
}
use chimpbase.Engine.Workflows.Loop.{
  Definitions, get_definition, is_future, run_definition, wake_up, run_row, run_loaded, iterate,
  run_rounds, settle, run_workflow_instance_until_suspended, run_leased, on_workflows,
  process_workflow, process_workflow_queue_payload,
}
use chimpbase.Engine.Workflows.Inner.{
  IsInnerStep, step_at-All, run_step-IsInner, apply_directive-IsInner, set-IsInner, same,
}

-- The code that a definition calls keeps the transaction.
abbrev pub IsInnerDefinition : WorkflowDefinition → Type 0
IsInnerDefinition (by_run run) = (input state : String) → IsInner (run input state)
IsInnerDefinition (by_steps steps) = All IsInnerStep steps

-- All registered definitions do.
abbrev pub AllInner : Definitions → Type 0
AllInner [] = Unit
AllInner ((name, version, definition) ∷ rest) = IsInnerDefinition definition × AllInner rest

get_definition-AllInner :
    (name : String) (version : ℕ) (definitions : Definitions) (definition : WorkflowDefinition)
    → AllInner definitions
    → get_definition name version definitions ≡ some definition
    → IsInnerDefinition definition
unfolding get_definition
get_definition-AllInner name version [] definition a e = cc
get_definition-AllInner name version ((n, v, d) ∷ rest) definition a e =
    elim (Bool-cases (str_eq n name && (v == version))) [
      | inl hit ↦ let only : d ≡ definition = ground arith in subst IsInnerDefinition only a.0
      | inr miss ↦ get_definition-AllInner name version rest definition a.1 (ground arith)
    ]

module _ (definitions : Definitions) (workflow_id : String) (inner : AllInner definitions) where
  definition-IsInner :
      (row : WorkflowInstance) (o : Option WorkflowDefinition)
      → ((definition : WorkflowDefinition) → o ≡ some definition → IsInnerDefinition definition)
      → IsInner (run_definition definitions workflow_id row o)
  definition-IsInner row none known s open_ =
      throw-IsInner Bool (concat "workflow definition not found: " row.workflow_name) s open_
  definition-IsInner row (some (by_run run)) known s open_ =
      >>=-IsInner (run row.input_json row.state_json) (apply_directive workflow_id row)
        (known (by_run run) refl row.input_json row.state_json)
        (apply_directive-IsInner workflow_id row) s open_
  definition-IsInner row (some (by_steps steps)) known s open_ =
      run_step-IsInner workflow_id row steps (step_at steps row.current_step_index)
        (λ step e. step_at-All steps row.current_step_index step (known (by_steps steps) refl) e) s
        open_

  wake_up-IsInner : (row : WorkflowInstance) → IsInner (wake_up definitions workflow_id row)
  wake_up-IsInner row s open_ = elim (Bool-cases (is_future row.wake_at_ms s.now)) [
    | inl sleeps ↦ rw sleeps (same s)
    | inr wakes ↦ rw wakes (set-IsInner workflow_id _ true s open_)
  ]

  row-IsInner :
      (status : WorkflowStatus) (row : WorkflowInstance)
      → IsInner (run_row definitions workflow_id status row)
  row-IsInner completed row s open_ = same s
  row-IsInner failed row s open_ = same s
  row-IsInner sleeping row s open_ = wake_up-IsInner row s open_
  row-IsInner running row s open_ =
      definition-IsInner row _
        (λ definition e.
          get_definition-AllInner row.workflow_name row.workflow_version definitions definition
            inner e)
        s open_
  row-IsInner waiting_signal row s open_ =
      definition-IsInner row _
        (λ definition e.
          get_definition-AllInner row.workflow_name row.workflow_version definitions definition
            inner e)
        s open_

  loaded-IsInner : (o : Option WorkflowInstance) → IsInner (run_loaded definitions workflow_id o)
  loaded-IsInner none s open_ = same s
  loaded-IsInner (some row) s open_ = row-IsInner row.status row s open_

  iterate-IsInner : IsInner (iterate definitions workflow_id)
  unfolding iterate
  iterate-IsInner s open_ = loaded-IsInner (get_workflow workflow_id s.db.workflows) s open_

  again-IsInner :
      (rest : Run Unit) (more : Bool) → IsInner rest → IsInner (if more then rest else pure tt)
  again-IsInner rest true i s open_ = i s open_
  again-IsInner rest false i s open_ = same s

  run_rounds-IsInner : (guard : ℕ) → IsInner (run_rounds definitions workflow_id guard)
  unfolding run_rounds
  run_rounds-IsInner zero s open_ =
      throw-IsInner Unit (concat "workflow exceeded maximum step iterations: " workflow_id) s open_
  run_rounds-IsInner (suc guard) s open_ =
      >>=-IsInner (iterate definitions workflow_id)
        (λ more. if more then run_rounds definitions workflow_id guard else pure tt) iterate-IsInner
        (λ more.
          again-IsInner (run_rounds definitions workflow_id guard) more (run_rounds-IsInner guard))
        s open_

  settle-Keeps :
      (token : String) (s : Engine) (r : Result String Unit × Engine)
      → Keeps s r.1
      → Keeps s (settle definitions workflow_id token r).1
  settle-Keeps token s (ok u, t) k = record {
    depth = k.depth;
    saved = k.saved;
    committed = k.committed;
    published = k.published;
  }
  settle-Keeps token s (err e, t) k = record {
    depth = k.depth;
    saved = k.saved;
    committed = k.committed;
    published = k.published;
  }

  leased-IsInner :
      (token : String) (c : Bool × List WorkflowInstance)
      → IsInner (run_leased definitions workflow_id token c)
  unfolding run_workflow_instance_until_suspended
  leased-IsInner token (false, rows) s open_ = same s
  leased-IsInner token (true, rows) s open_ =
      let k =
        run_rounds-IsInner 1024 (on_workflows definitions workflow_id (λ old. rows) s) open_ in
      settle-Keeps token s
        (run_workflow_instance_until_suspended definitions workflow_id
          (on_workflows definitions workflow_id (λ old. rows) s))
        (record {
          depth = k.depth;
          saved = k.saved;
          committed = k.committed;
          published = k.published;
        })

  pub process_workflow-IsInner :
      (lease_ms : ℕ) (token : String)
      → IsInner (process_workflow definitions workflow_id lease_ms token)
  unfolding process_workflow
  process_workflow-IsInner lease_ms token s open_ =
      leased-IsInner token (claim_workflow_lease s.now lease_ms token workflow_id s.db.workflows) s
        open_

module _ (definitions : Definitions) (inner : AllInner definitions) (lease_ms : ℕ)
    (token : String) where
  pub payload-IsInner :
      (payload : Payload)
      → IsInner (process_workflow_queue_payload definitions lease_ms token payload)
  unfolding process_workflow_queue_payload
  payload-IsInner (workflow_run id) s open_ = elim (Bool-cases (str_eq id "")) [
    | inl blank ↦
        rw (blank, process_workflow_queue_payload)
          (throw-IsInner Unit "workflow queue payload requires workflowId" s open_)
    | inr named ↦
        rw (named, process_workflow_queue_payload)
          (process_workflow-IsInner definitions id inner lease_ms token s open_)
  ]
  payload-IsInner (json text) s open_ = same s
  payload-IsInner (cron_run name at) s open_ = same s
  payload-IsInner (subscription_run id name text) s open_ = same s
  payload-IsInner (dead_letter attempts error at payload queue) s open_ = same s

  -- If the run of a workflow throws while its job is processed on an idle engine, by the
  -- registered worker and with definitions whose code keeps the transaction, the tables of
  -- workflows and signals are as they were before the job: that the workflow has failed is not
  -- stored.
  pub failed_workflow_rolled_back :
      (registry : Registry) (job : ClaimedJob) (worker : Worker)
      → get_worker job.queue_name registry.workers ≡ some worker
      → (handles : worker.handler ≡ process_workflow_queue_payload definitions lease_ms token)
      → (s t : Engine) (message : String) → IsIdle s
      → process_workflow_queue_payload definitions lease_ms token job.payload
          (enter (begin_transaction s))
        ≡ (err message, t)
      → ((process_claimed_queue_job registry job s).1.db.workflows ≡ s.db.workflows)
        × ((process_claimed_queue_job registry job s).1.db.signals ≡ s.db.signals)
  unfolding fail_queue_job
  failed_workflow_rolled_back registry job worker registered handles s t message idle throws =
      let inner' : IsInner (worker.handler job.payload) =
        subst (λ (h : Payload → Run Unit). IsInner (h job.payload)) (sym handles)
          (payload-IsInner job.payload) in
      let throws' : worker.handler job.payload (enter (begin_transaction s)) ≡ (err message, t) =
        ap (λ (h : Payload → Run Unit). h job.payload (enter (begin_transaction s))) handles
        ∙ throws in
      let result =
        process-rolled_back registry job worker registered inner' s idle message t throws' in
      (
        ap (λ (r : Result String (List Event) × Engine). r.1.db.workflows) result,
        ap (λ (r : Result String (List Event) × Engine). r.1.db.signals) result,
      )
