-- ===== src/Contracts/Versions/Tests.antt =====
-- Two versions of the contract of a workflow, and the lists of their steps.
use chimpbase.Prelude.{
  ◌⊎◌, ℕ, zero, suc, ◌≡◌, refl, String, concat, Bool, true, false, none, some, [], ◌∷◌, str_eq,
}
use chimpbase.Prelude.Result.{ok}
use chimpbase.Contracts.Values.{
  Json, null, boolean, number, text, array, object, Items, nil, item, Fields, end, field,
  stable_serialize,
}
use chimpbase.Contracts.Steps.{
  additive, requires_migration, breaking, workflow_action, workflow_sleep, workflow_wait_for_signal,
  RegisteredStep, compare_workflow_steps,
}
use chimpbase.Contracts.Steps.Appended.{compare_appended}
use chimpbase.Contracts.Versions.{
  steps, WorkflowContract, compare_workflow_contracts, version_workflow, compare_schema_shape,
  compare_record_schemas,
}
use chimpbase.Contracts.Versions.Compatible.{IsCompatible, compare_contracts-IsCompatible}
use chimpbase.Contracts.Schemas.{compare_enums}
use chimpbase.Contracts.Versions.Signals.{
  AllFields, IsStillThere, compare_record_schemas-IsStillThere,
}

abbrev pub charge_step : RegisteredStep
charge_step = record {
  action = some "charge";
  id = "charge";
  kind = workflow_action;
  signal = none;
}

abbrev pub wait_step : RegisteredStep
wait_step = record { action = none; id = "wait"; kind = workflow_sleep; signal = none }

abbrev pub paid_step : RegisteredStep
paid_step = record {
  action = none;
  id = "paid";
  kind = workflow_wait_for_signal;
  signal = some "paid";
}

abbrev mutual
  print : Json ℕ → String
  print null = "null"
  print (boolean true) = "true"
  print (boolean false) = "false"
  print (number n) = "0"
  print (text t) = t
  print (array items) = concat "[" (print_items items)
  print (object fields) = concat "{" (print_fields fields)

  print_items : Items ℕ → String
  print_items nil = "]"
  print_items (item value items) = concat (print value) (concat "," (print_items items))

  print_fields : Fields ℕ → String
  print_fields end = "}"
  print_fields (field key value fields) =
      concat key (concat ":" (concat (print value) (concat "," (print_fields fields))))

abbrev pub in_order : String → String → Bool
in_order a b = true

abbrev pub is_nonzero : ℕ → Bool
is_nonzero zero = false
is_nonzero (suc n) = true

abbrev pub same_value : Json ℕ → Json ℕ → Bool
same_value a b = str_eq (stable_serialize in_order print a) (stable_serialize in_order print b)

abbrev pub input_before : Json ℕ
input_before = object (
    field "type" (text "object") (
      field "properties" (object (field "amount" (object (field "type" (text "number") end)) end))
        (field "required" (array (item (text "amount") nil)) end)))

abbrev pub input_after : Json ℕ
input_after = object (
    field "type" (text "object") (
      field "properties"
        (object (
          field "amount" (object (field "type" (text "number") end))
            (field "note" (object (field "type" (text "string") end)) end)))
        (field "required" (array (item (text "amount") nil)) end)))

abbrev pub contract_before : WorkflowContract ℕ
contract_before = record {
  hash = "a";
  input_schema = some input_before;
  mode = steps;
  name = "order";
  signal_schemas = none;
  state_schema = none;
  steps = charge_step ∷ paid_step ∷ [];
  version = 1;
}

abbrev pub contract_after : WorkflowContract ℕ
contract_after = record {
  hash = "b";
  input_schema = some input_after;
  mode = steps;
  name = "order";
  signal_schemas = none;
  state_schema = none;
  steps = charge_step ∷ paid_step ∷ wait_step ∷ [];
  version = 1;
}

inserted_step :
    compare_workflow_steps (charge_step ∷ paid_step ∷ []) (charge_step ∷ wait_step ∷ paid_step ∷ [])
    ≡ requires_migration
unfolding compare_workflow_steps
inserted_step = refl

contracts_grow :
    compare_workflow_contracts is_nonzero same_value contract_before contract_after ≡ additive
unfolding compare_workflow_contracts stable_serialize
contracts_grow = refl

contracts_shrink :
    compare_workflow_contracts is_nonzero same_value contract_after contract_before ≡ breaking
unfolding compare_workflow_contracts stable_serialize
contracts_shrink = refl

next_version :
    version_workflow is_nonzero same_value contract_after (some contract_before)
    ≡ ok (record {
      changed = true;
      compatibility = additive;
      contract = record contract_after { version = 2 };
    })
unfolding version_workflow stable_serialize
next_version = refl

compare_contracts-IsCompatible_example :
    IsCompatible
      (compare_workflow_contracts is_nonzero same_value contract_before contract_after)
      contract_before
      contract_after
compare_contracts-IsCompatible_example =
    compare_contracts-IsCompatible is_nonzero same_value contract_before contract_after

compare_appended_example :
    compare_workflow_steps (charge_step ∷ paid_step ∷ []) (charge_step ∷ paid_step ∷ wait_step ∷ [])
    ≡ additive
compare_appended_example =
    compare_appended (charge_step ∷ paid_step ∷ []) (wait_step ∷ [])
      ((refl, (refl, tt)), ((refl, tt), (tt, tt)))

abbrev pub phases_before : Json ℕ
phases_before =
    object (field "type" (text "string") (field "enum" (array (item (text "open") nil)) end))

abbrev pub phases_after : Json ℕ
phases_after = object (
    field "type" (text "string")
      (field "enum" (array (item (text "open") (item (text "done") nil))) end))

-- A text that may be one more value: the enum alone is additive, and the whole is not.
enum_grows :
    (compare_enums is_nonzero same_value
        (field "type" (text "string") (field "enum" (array (item (text "open") nil)) end))
        (field "type"
          (text "string")
          (field "enum" (array (item (text "open") (item (text "done") nil))) end))
      ≡ additive)
    × (compare_schema_shape is_nonzero same_value (some phases_before) (some phases_after)
        ≡ breaking)
unfolding compare_enums compare_schema_shape stable_serialize
enum_grows = (refl, refl)

compare_record_schemas-IsStillThere_example :
    (compare_record_schemas is_nonzero same_value
        (field "paid" input_before end)
        (field "paid" input_after end)
      ≡ breaking)
    ⊎ AllFields
        (IsStillThere is_nonzero same_value
          (compare_record_schemas is_nonzero same_value
            (field "paid" input_before end)
            (field "paid" input_after end))
          (field "paid" input_after end))
        (field "paid" input_before end)
compare_record_schemas-IsStillThere_example =
    compare_record_schemas-IsStillThere is_nonzero same_value (field "paid" input_before end)
      (field "paid" input_after end)
