-- ===== src/Engine/Workflows.antt =====
-- The statements of the workflow engine on its two tables (packages/core/engine.ts): start, signal,
-- the lease, and the signals that wait.
pub mod Advance
pub mod Loop
pub mod Rows
pub mod Calls
pub mod Lease
mod Tests
pub mod Signals
pub mod Inner
pub mod Rollback
use chimpbase.Prelude.{
  ℕ, suc, ◌+◌, String, Bool, true, false, not, ◌&&◌, ◌||◌, Option, none, some, List, [], ◌∷◌, ◌++◌,
  leb, ◌==◌, length, str_eq, concat, if◌then◌else◌,
}
use chimpbase.Prelude.Int.{ℤ}
use chimpbase.Prelude.Result.{ok, err}
use chimpbase.Queue.{workflow_run, queue_enqueue}
use chimpbase.Schedules.{is_free_at, has_token}
use chimpbase.Workflow.{
  WorkflowStatus, completed, failed, running, sleeping, waiting_signal, WorkflowInstance,
  WorkflowSignal,
}
use chimpbase.Engine.{Db, Engine, Run, ◌>>=◌, ◌>>◌, pure, throw, on_db}
use chimpbase.Engine.Jobs.{internal_workflow_queue_name}

-- `SELECT ... WHERE workflow_id = ? LIMIT 1`
unfoldable pub get_workflow : String → List WorkflowInstance → Option WorkflowInstance
get_workflow id [] = none
get_workflow id (row ∷ rows) = if str_eq row.workflow_id id then some row else get_workflow id rows

-- `UPDATE ... WHERE workflow_id = ?`
unfoldable pub update_workflow :
    String → (WorkflowInstance → WorkflowInstance) → List WorkflowInstance → List WorkflowInstance
update_workflow id f [] = []
update_workflow id f (row ∷ rows) =
    (if str_eq row.workflow_id id then f row else row) ∷ update_workflow id f rows

abbrev pub set_workflow : String → (WorkflowInstance → WorkflowInstance) → Run Unit
set_workflow id f = on_db (λ db. record db { workflows = update_workflow id f db.workflows })

abbrev pub enqueue_workflow : String → Option ℤ → Run Unit
enqueue_workflow id delay s = (
  ok tt,
  record s {
    db = record (s.db) {
      jobs = queue_enqueue s.now internal_workflow_queue_name (workflow_run id) delay s.db.jobs;
    };
  },
)

abbrev pub is_terminal : WorkflowStatus → Bool
is_terminal completed = true
is_terminal failed = true
is_terminal _ = false

-- `startWorkflow`: `state_json` is the definition's initial state, `first_step_id` the id of its
-- first step. The insert throws on an id that is taken.
abbrev pub insert_workflow : WorkflowInstance → Option WorkflowInstance → Run Unit
insert_workflow row (some taken) =
    throw "UNIQUE constraint failed: _chimpbase_workflow_instances.workflow_id"
insert_workflow row none = on_db (λ db. record db { workflows = db.workflows ++ row ∷ [] })

unfoldable pub start_workflow : String → String → ℕ → String → String → Option String → Run Unit
unfolding get_workflow
start_workflow workflow_id name version input_json state_json first_step_id s =
    (insert_workflow
          (record {
            workflow_id = workflow_id;
            workflow_name = name;
            workflow_version = version;
            status = running;
            input_json = input_json;
            state_json = state_json;
            current_step_id = first_step_id;
            current_step_index = 0;
            wake_at_ms = none;
            last_error = none;
            lease_token = none;
            lease_expires_at_ms = none;
          })
          (get_workflow workflow_id s.db.workflows)
        >> enqueue_workflow workflow_id none)
      s

-- `signalWorkflow`. No signal is ever deleted, so the last id is the number of rows.
abbrev pub add_signal : String → String → String → Db → Db
add_signal workflow_id name payload_json db = record db {
  signals =
      db.signals
      ++ record {
        id = length db.signals + 1;
        workflow_id = workflow_id;
        signal_name = name;
        payload_json = payload_json;
        consumed = false;
      }
        ∷ [];
}

abbrev pub signal_row : String → String → String → Option WorkflowInstance → Run Unit
signal_row workflow_id name payload_json none = throw (concat "workflow not found: " workflow_id)
signal_row workflow_id name payload_json (some row) =
    if is_terminal row.status
    then throw (concat "workflow is terminal: " workflow_id)
    else (on_db (add_signal workflow_id name payload_json) >> enqueue_workflow workflow_id none)

unfoldable pub signal_workflow : String → String → String → Run Unit
unfolding get_workflow
signal_workflow workflow_id name payload_json s =
    signal_row workflow_id name payload_json (get_workflow workflow_id s.db.workflows) s

-- The `WHERE` clause of `claimWorkflowLease`.
unfoldable pub is_leasable : ℕ → WorkflowInstance → Bool
is_leasable now row =
    not (is_terminal row.status) && is_free_at row.lease_token row.lease_expires_at_ms now

abbrev pub lease_row : String → ℕ → WorkflowInstance → WorkflowInstance
lease_row token expires row = record row {
  lease_token = some token;
  lease_expires_at_ms = some expires;
}

abbrev pub unlease_row : WorkflowInstance → WorkflowInstance
unlease_row row = record row { lease_token = none; lease_expires_at_ms = none }

abbrev pub claim_row :
    ℕ
    → ℕ
    → String
    → String
    → Option WorkflowInstance
    → List WorkflowInstance
    → Bool × List WorkflowInstance
claim_row now lease_ms token workflow_id none rows = (false, rows)
claim_row now lease_ms token workflow_id (some row) rows =
    if is_leasable now row
    then (true, update_workflow workflow_id (lease_row token (now + lease_ms)) rows)
    else (false, rows)

-- Whether the lease was given, with `token`, the platform's random UUID; ids are unique.
unfoldable pub claim_workflow_lease :
    ℕ → ℕ → String → String → List WorkflowInstance → Bool × List WorkflowInstance
unfolding get_workflow is_leasable update_workflow
claim_workflow_lease now lease_ms token workflow_id rows =
    claim_row now lease_ms token workflow_id (get_workflow workflow_id rows) rows

unfoldable pub release_workflow_lease :
    String → String → List WorkflowInstance → List WorkflowInstance
unfolding update_workflow
release_workflow_lease workflow_id token rows =
    update_workflow workflow_id
      (λ row. if has_token token row.lease_token then unlease_row row else row) rows

unfoldable pub fail_workflow_instance :
    String → String → List WorkflowInstance → List WorkflowInstance
unfolding update_workflow
fail_workflow_instance workflow_id message rows =
    update_workflow workflow_id
      (λ row. record (unlease_row row) {
        status = failed;
        wake_at_ms = none;
        last_error = some message;
      })
      rows

abbrev pub is_waiting_for : String → String → WorkflowSignal → Bool
is_waiting_for workflow_id name signal =
    str_eq signal.workflow_id workflow_id && (str_eq signal.signal_name name && not signal.consumed)

-- `ORDER BY id ASC LIMIT 1`, over rows in the order of their ids.
unfoldable pub find_pending_workflow_signal :
    String → String → List WorkflowSignal → Option WorkflowSignal
find_pending_workflow_signal workflow_id name [] = none
find_pending_workflow_signal workflow_id name (signal ∷ signals) =
    if is_waiting_for workflow_id name signal
    then some signal
    else find_pending_workflow_signal workflow_id name signals

-- `SET consumed_at = CURRENT_TIMESTAMP WHERE id = ? AND consumed_at IS NULL`
unfoldable pub consume_signal : ℕ → List WorkflowSignal → List WorkflowSignal
consume_signal id [] = []
consume_signal id (signal ∷ signals) =
    (if signal.id == id then record signal { consumed = true } else signal)
    ∷ consume_signal id signals
