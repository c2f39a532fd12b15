-- ===== src/Engine/Workflows/Tests.antt =====
-- A workflow that waits for a signal and then sleeps, and the theorems at its states.
use chimpbase.Prelude.{
  Option, ℕ, ◌<◌, ◌≡◌, refl, String, true, false, none, some, List, [], ◌∷◌, arith, concat, In, inl,
  inr, ap, ◌≢◌, eq_iff, or_else,
}
use chimpbase.Prelude.Int.{pos}
use chimpbase.Prelude.Result.{Result, ok, err}
use chimpbase.Workflow.{
  completed, running, sleeping, waiting_signal, WorkflowInstance, WorkflowSignal,
}
use chimpbase.Engine.{enter, begin_transaction, Engine, ◌>>◌}
use chimpbase.Engine.Tests.{idle_engine}
use chimpbase.Engine.Workflows.{
  get_workflow, start_workflow, signal_workflow, claim_workflow_lease, find_pending_workflow_signal,
  consume_signal,
}
use chimpbase.Engine.Workflows.Advance.{
  wait_step, sleep_step, go_on, fail_it, by_steps, step_at, run_step,
}
use chimpbase.Engine.Workflows.Loop.{
  Definitions, process_workflow, process_workflow_queue_payload,
  run_workflow_instance_until_suspended,
}
use chimpbase.Engine.Workflows.Calls.{Call, claim, release, run}
use chimpbase.Engine.Workflows.Lease.{with_workflows}
use chimpbase.Engine.Workflows.Lease
use chimpbase.Engine.Workflows.Signals.{IsOldest}
use chimpbase.Engine.Workflows.Signals
use chimpbase.Engine.Workflows.Rollback
use chimpbase.Queue.{workflow_run, processing, QueueJob, ClaimedJob}
use chimpbase.Engine.Jobs.{Worker, Registry, get_worker, process_claimed_queue_job}

abbrev definitions : Definitions
definitions =
    (
      "approval",
      1,
      by_steps (
          wait_step "approve" "approved" (λ input payload state. payload) (λ input state. none)
            (go_on (λ input state. state))
          ∷ sleep_step "pause" (λ input state. pos 500)
          ∷ []),
    )
    ∷ []

abbrev started : Engine
started = (start_workflow "w" "approval" 1 "{}" "null" (some "approve") idle_engine).1

-- The workflow waits, is signalled, and goes to sleep at the second step.
abbrev slept : Engine
slept =
    ((process_workflow definitions "w" 30 "a"
        >> signal_workflow "w" "approved" "yes"
        >> process_workflow definitions "w" 30 "b")
      started).1

goes_to_sleep :
    get_workflow "w" slept.db.workflows
    ≡ some (record {
      workflow_id = "w";
      workflow_name = "approval";
      workflow_version = 1;
      status = sleeping;
      input_json = "{}";
      state_json = "yes";
      current_step_id = none;
      current_step_index = 2;
      wake_at_ms = some 1500;
      last_error = none;
      lease_token = none;
      lease_expires_at_ms = none;
    })
unfolding process_workflow signal_workflow start_workflow get_workflow claim_workflow_lease
    find_pending_workflow_signal consume_signal step_at run_step
goes_to_sleep = refl

-- The row of a workflow that has completed, and a state with it.
abbrev ended_row : WorkflowInstance
ended_row = record {
  workflow_id = "w";
  workflow_name = "approval";
  workflow_version = 1;
  status = completed;
  input_json = "{}";
  state_json = "yes";
  current_step_id = none;
  current_step_index = 2;
  wake_at_ms = none;
  last_error = none;
  lease_token = none;
  lease_expires_at_ms = none;
}

abbrev ended : Engine
ended = record idle_engine { db = record (idle_engine.db) { workflows = ended_row ∷ [] } }

ended_row_there : get_workflow "w" ended.db.workflows ≡ some ended_row
unfolding get_workflow
ended_row_there = refl

abbrev late_calls : List Call
late_calls = claim 2000 30 "b" "w" ∷ release "w" "b" ∷ []

ended_final_example :
    ¬ In {A = String} "w" (run late_calls ended.db.workflows).0
    × (get_workflow "w" (run late_calls ended.db.workflows).1 ≡ some ended_row)
    × (run_workflow_instance_until_suspended definitions "w"
          (with_workflows (run late_calls ended.db.workflows).1 ended)
        ≡ (ok tt, with_workflows (run late_calls ended.db.workflows).1 ended))
    × (signal_workflow "w" "approved" "yes"
          (with_workflows (run late_calls ended.db.workflows).1 ended)
        ≡ (
          err (concat "workflow is terminal: " "w"),
          with_workflows (run late_calls ended.db.workflows).1 ended,
        ))
ended_final_example =
    Lease.ended_final definitions "w" ended_row 9000 ended.db.workflows late_calls ended "approved"
      "yes" ended_row_there (inl refl) (omega arith, (inr (λ e. cc), tt))

abbrev live_row : WorkflowInstance
live_row = record ended_row { status = running }

abbrev leased_rows : List WorkflowInstance
leased_rows = record live_row { lease_token = some "a"; lease_expires_at_ms = some 1030 } ∷ []

lease_given : claim_workflow_lease 1000 30 "a" "w" (live_row ∷ []) ≡ (true, leased_rows)
unfolding claim_workflow_lease
lease_given = refl

abbrev intruder : List Call
intruder = claim 1029 30 "b" "w" ∷ release "w" "b" ∷ claim 1029 30 "b" "w" ∷ []

other_token : ◌≢◌ {A = Option String} (some "a") (some "b")
other_token e = let same : false ≡ true = (eq_iff "a" "b").1 (ap (λ o. or_else o "") e) in cc

lease_exclusive_example :
    ¬ In {A = String} "w" (run intruder leased_rows).0
    × (get_workflow "w" (run intruder leased_rows).1 ≡ get_workflow "w" leased_rows)
lease_exclusive_example =
    Lease.lease_exclusive 1000 30 "a" "w" (live_row ∷ []) leased_rows intruder lease_given
      (omega arith, (inr other_token, (omega arith, tt)))

abbrev signal : ℕ → WorkflowSignal
signal id = record {
  id = id;
  workflow_id = "w";
  signal_name = "approved";
  payload_json = "yes";
  consumed = false;
}

abbrev two_signals : List WorkflowSignal
two_signals = signal 1 ∷ signal 2 ∷ []

finds_first : find_pending_workflow_signal "w" "approved" two_signals ≡ some (signal 1)
unfolding find_pending_workflow_signal
finds_first = refl

find_pending_workflow_signal-IsOldest_example :
    IsOldest "w" "approved" two_signals (signal 1)
    × ((next : WorkflowSignal)
        → find_pending_workflow_signal "w" "approved" (consume_signal 1 two_signals) ≡ some next
        → 1 < next.id)
find_pending_workflow_signal-IsOldest_example =
    Signals.find_pending_workflow_signal-IsOldest "w" "approved" two_signals (signal 1)
      ((omega arith, tt), (tt, tt)) finds_first

-- A workflow whose signal has not come in time, and which is to fail then; the job that finds this.
abbrev strict : Definitions
strict =
    (
      "approval",
      1,
      by_steps (
          wait_step "approve" "approved" (λ input payload state. payload)
            (λ input state. some (pos 10)) fail_it
          ∷ []),
    )
    ∷ []

abbrev late_row : WorkflowInstance
late_row = record ended_row {
  status = waiting_signal;
  current_step_id = some "approve";
  current_step_index = 0;
  wake_at_ms = some 900;
}

abbrev late_job : QueueJob
late_job = record {
  id = 1;
  queue_name = "__chimpbase.workflow.run";
  payload = workflow_run "w";
  status = processing;
  available_at_ms = 900;
  attempt_count = 1;
  lease_expires_at_ms = some 1030;
  last_error = none;
}

abbrev late : Engine
late = record idle_engine {
  db = record (idle_engine.db) { workflows = late_row ∷ []; jobs = late_job ∷ [] };
}

abbrev workflow_worker : Worker
workflow_worker = record { dlq_name = none; handler = process_workflow_queue_payload strict 30 "a" }

abbrev registry : Registry
registry = record {
  workers = ("__chimpbase.workflow.run", workflow_worker) ∷ [];
  crons = [];
  subscriptions = [];
  workflow_names = "approval" ∷ [];
  is_async = false;
  lease_ms = 30;
  max_attempts = 1;
  retry_delay_ms = 50;
}

abbrev claimed_late : ClaimedJob
claimed_late = record {
  id = 1;
  queue_name = "__chimpbase.workflow.run";
  payload = workflow_run "w";
  attempt_count = 1;
}

is_registered : get_worker "__chimpbase.workflow.run" registry.workers ≡ some workflow_worker
unfolding get_worker
is_registered = refl

abbrev thrown : Result String Unit × Engine
thrown =
    process_workflow_queue_payload strict 30 "a" (workflow_run "w") (enter (begin_transaction late))

it_throws : thrown ≡ (err "workflow signal timed out: w/approved", thrown.1)
unfolding process_workflow_queue_payload process_workflow get_workflow claim_workflow_lease
    find_pending_workflow_signal step_at run_step begin_transaction
it_throws = refl

failed_workflow_rolled_back_example :
    ((process_claimed_queue_job registry claimed_late late).1.db.workflows ≡ late_row ∷ [])
    × ((process_claimed_queue_job registry claimed_late late).1.db.signals ≡ [])
failed_workflow_rolled_back_example =
    Rollback.failed_workflow_rolled_back strict ((tt, tt), tt) 30 "a" registry claimed_late
      workflow_worker is_registered refl late thrown.1 "workflow signal timed out: w/approved"
      (record { depth = refl; saved = refl; pending = refl }) it_throws
