-- ===== src/Workflow.antt =====
-- The rows of the tables of workflow instances and of signals (packages/bun/src/sqlite_adapter.ts).
-- JSON values are their texts.
use chimpbase.Prelude.{ℕ, String, Bool, Option}

pub data WorkflowStatus : Type 0 where
  completed failed running sleeping waiting_signal : WorkflowStatus

-- `PersistedWorkflowInstanceRow` with the two columns of the lease.
pub record WorkflowInstance : Type 0 where
  pub workflow_id : String
  pub workflow_name : String
  pub workflow_version : ℕ
  pub status : WorkflowStatus
  pub input_json : String
  pub state_json : String
  pub current_step_id : Option String
  pub current_step_index : ℕ
  pub wake_at_ms : Option ℕ
  pub last_error : Option String
  pub lease_token : Option String
  pub lease_expires_at_ms : Option ℕ

pub record WorkflowSignal : Type 0 where
  pub id : ℕ
  pub workflow_id : String
  pub signal_name : String
  pub payload_json : String
  pub consumed : Bool
