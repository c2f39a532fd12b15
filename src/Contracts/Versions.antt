-- ===== src/Contracts/Versions.antt =====
-- `compareRecordSchemas`, `compareWorkflowContracts` and `versionWorkflow` (packages/runtime/index.ts).
-- The draft's contract comes with its hash, and its version is not looked at.
mod Compatible
mod Signals
mod Tests
use chimpbase.Prelude.{
  ℕ, suc, ◌+◌, String, concat, Bool, true, false, Option, none, some, List, str_eq, if◌then◌else◌,
  or_else,
}
use chimpbase.Prelude.Result.{Result, ok, err}
use chimpbase.Contracts.Values.{Json, Fields, end, field, property}
use chimpbase.Contracts.Steps.{
  Compatibility, identical, additive, breaking, RegisteredStep, merge_workflow_compatibility,
  compare_workflow_steps,
}
use chimpbase.Contracts.Schemas.{is_defined}
use chimpbase.Contracts.Shapes.{compare_values}

pub data WorkflowMode : Type 0 where
  run : WorkflowMode
  steps : WorkflowMode

pub record WorkflowContract (Number : Type 0) : Type 0 where
  pub hash : String
  pub input_schema : Option (Json Number)
  pub mode : WorkflowMode
  pub name : String
  pub signal_schemas : Option (Fields Number)
  pub state_schema : Option (Json Number)
  pub steps : List RegisteredStep
  pub version : ℕ

pub record VersionedWorkflow (Number : Type 0) : Type 0 where
  pub changed : Bool
  pub compatibility : Compatibility
  pub contract : WorkflowContract Number

abbrev pub same_mode : WorkflowMode → WorkflowMode → Bool
same_mode run run = true
same_mode run steps = false
same_mode steps run = false
same_mode steps steps = true

module _ {Number : Type 0} (nonzero : Number → Bool) (same : Json Number → Json Number → Bool) where
  unfoldable pub compare_schema_shape : Option (Json Number) → Option (Json Number) → Compatibility
  unfolding compare_values
  compare_schema_shape none none = identical
  compare_schema_shape none (some next) = breaking
  compare_schema_shape (some previous) none = breaking
  compare_schema_shape (some previous) (some next) = compare_values nonzero same previous next

  -- The keys of `next` that are new.
  unfoldable pub add_new_keys : Fields Number → Fields Number → Compatibility → Compatibility
  unfolding property merge_workflow_compatibility
  add_new_keys previous end compatibility = compatibility
  add_new_keys previous (field key value next) compatibility = add_new_keys previous next (
      if is_defined (property key previous)
      then compatibility
      else merge_workflow_compatibility compatibility additive)

  unfoldable pub compare_old_keys :
      Fields Number → Fields Number → Fields Number → Compatibility → Compatibility
  unfolding property merge_workflow_compatibility compare_values add_new_keys
  compare_old_keys all_previous end next compatibility =
      add_new_keys all_previous next compatibility
  compare_old_keys all_previous (field key value previous) next compatibility =
      elim (property key next) [
        | none ↦ breaking
        | some schema ↦
            compare_old_keys all_previous previous next (
              merge_workflow_compatibility compatibility (compare_values nonzero same value schema))
      ]

  unfoldable pub compare_record_schemas : Fields Number → Fields Number → Compatibility
  unfolding compare_old_keys
  compare_record_schemas previous next = compare_old_keys previous previous next identical

  unfoldable pub compare_workflow_contracts :
      WorkflowContract Number → WorkflowContract Number → Compatibility
  unfolding compare_workflow_steps merge_workflow_compatibility compare_record_schemas
      compare_schema_shape
  compare_workflow_contracts previous next =
      if str_eq previous.name next.name
      then if same_mode previous.mode next.mode
        then merge_workflow_compatibility
            (merge_workflow_compatibility
              (merge_workflow_compatibility
                (merge_workflow_compatibility identical
                  (compare_workflow_steps previous.steps next.steps))
                (compare_record_schemas (or_else previous.signal_schemas end)
                  (or_else next.signal_schemas end)))
              (compare_schema_shape previous.input_schema next.input_schema))
            (compare_schema_shape previous.state_schema next.state_schema)
        else breaking
      else breaking

  unfoldable pub version_workflow :
      WorkflowContract Number
      → Option (WorkflowContract Number)
      → Result String (VersionedWorkflow Number)
  unfolding compare_workflow_contracts
  version_workflow draft none =
      ok (record {
        changed = true;
        compatibility = additive;
        contract = record draft { version = 1 };
      })
  version_workflow draft (some previous) =
      if str_eq previous.name draft.name
      then if str_eq previous.hash draft.hash
        then ok (record {
          changed = false;
          compatibility = identical;
          contract = record draft { version = previous.version };
        })
        else ok (record {
          changed = true;
          compatibility = compare_workflow_contracts previous draft;
          contract = record draft { version = previous.version + 1 };
        })
      else err (
          concat "workflow contract name mismatch: expected "
            (concat previous.name (concat ", received " draft.name)))
