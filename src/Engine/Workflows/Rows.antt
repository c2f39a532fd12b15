-- ===== src/Engine/Workflows/Rows.antt =====
-- The rows of the table of workflows under an update and an insert.
use chimpbase.Prelude.{
  ◌≡◌, ◌≢◌, refl, sym, ◌∙◌, inl, inr, String, false, Option, none, some, List, [], ◌∷◌, ◌++◌, arith,
  str_eq, eq_iff, Bool-cases,
}
use chimpbase.Prelude.Maps.{str_ne}
use chimpbase.Workflow.{WorkflowInstance}
use chimpbase.Engine.Workflows.{get_workflow, update_workflow}

abbrev pub map_row :
    (WorkflowInstance → WorkflowInstance) → Option WorkflowInstance → Option WorkflowInstance
map_row f none = none
map_row f (some row) = some (f row)

pub get_workflow-update_workflow :
    (id : String) (f : WorkflowInstance → WorkflowInstance)
    → ((row : WorkflowInstance) → (f row).workflow_id ≡ row.workflow_id)
    → (rows : List WorkflowInstance)
    → get_workflow id (update_workflow id f rows) ≡ map_row f (get_workflow id rows)
unfolding get_workflow update_workflow
get_workflow-update_workflow id f keeps_id [] = refl
get_workflow-update_workflow id f keeps_id (row ∷ rows) =
    elim (Bool-cases (str_eq row.workflow_id id)) [
      | inl here ↦ rw (here, keeps_id row, here) refl
      | inr later ↦ rw (later, later) (get_workflow-update_workflow id f keeps_id rows)
    ]

pub get_workflow-other :
    (id i : String) (f : WorkflowInstance → WorkflowInstance)
    → ((row : WorkflowInstance) → (f row).workflow_id ≡ row.workflow_id)
    → i ≢ id
    → (rows : List WorkflowInstance)
    → get_workflow id (update_workflow i f rows) ≡ get_workflow id rows
unfolding get_workflow update_workflow
get_workflow-other id i f keeps_id other [] = refl
get_workflow-other id i f keeps_id other (row ∷ rows) =
    let ih = get_workflow-other id i f keeps_id other rows in
    elim (Bool-cases (str_eq row.workflow_id i)) [
      | inl here ↦
          let off : str_eq row.workflow_id id ≡ false =
            str_ne row.workflow_id id (λ e. other (sym ((eq_iff row.workflow_id i).0 here) ∙ e)) in
          rw (here, keeps_id row, off) ih
      | inr later ↦ elim (Bool-cases (str_eq row.workflow_id id)) [
        | inl mine ↦ rw (later, mine) refl
        | inr off ↦ rw (later, off) ih
      ]
    ]

pub get_workflow-append :
    (id : String) (rows more : List WorkflowInstance) (row : WorkflowInstance)
    → get_workflow id rows ≡ some row
    → get_workflow id (rows ++ more) ≡ some row
unfolding get_workflow
get_workflow-append id [] more row e = cc
get_workflow-append id (r ∷ rows) more row e = elim (Bool-cases (str_eq r.workflow_id id)) [
  | inl here ↦ ground (arith, e, here)
  | inr later ↦
      let ih = get_workflow-append id rows more row (ground (arith, e, later)) in
      ground (arith, later, ih)
]
