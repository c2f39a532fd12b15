-- ===== src/Engine/Workflows/Calls.antt =====
-- The workers that share the table of workflows: the calls that they make on it.
use chimpbase.Prelude.{
  ℕ, ◌<◌, ◌≡◌, ◌≢◌, ◌⊎◌, String, Bool, true, false, Option, none, some, List, [], ◌∷◌, ◌++◌,
}
use chimpbase.Workflow.{WorkflowInstance}
use chimpbase.Engine.Workflows.{
  get_workflow, update_workflow, claim_workflow_lease, release_workflow_lease,
  fail_workflow_instance,
}

-- A call of any worker on the table of the workflows, with the time of a claim.
pub data Call : Type 0 where
  insert : WorkflowInstance → Call
  claim : ℕ → ℕ → String → String → Call
  release : String → String → Call
  fail : String → String → Call
  update : String → (WorkflowInstance → WorkflowInstance) → Call

-- The insert of `startWorkflow`, which throws on an id that is taken.
abbrev pub insert_new :
    WorkflowInstance → Option WorkflowInstance → List WorkflowInstance → List WorkflowInstance
insert_new row none rows = rows ++ row ∷ []
insert_new row (some taken) rows = rows

abbrev pub granted_ids : String → Bool × List WorkflowInstance → List String × List WorkflowInstance
granted_ids id (true, after) = (id ∷ [], after)
granted_ids id (false, after) = ([], after)

-- The ids whose lease is given, and the table after the call.
unfoldable pub step : Call → List WorkflowInstance → List String × List WorkflowInstance
unfolding get_workflow claim_workflow_lease release_workflow_lease fail_workflow_instance
    update_workflow
step (insert row) rows = ([], insert_new row (get_workflow row.workflow_id rows) rows)
step (claim now lease_ms token id) rows =
    granted_ids id (claim_workflow_lease now lease_ms token id rows)
step (release id token) rows = ([], release_workflow_lease id token rows)
step (fail id message) rows = ([], fail_workflow_instance id message rows)
step (update id f) rows = ([], update_workflow id f rows)

unfoldable pub run : List Call → List WorkflowInstance → List String × List WorkflowInstance
run [] rows = ([], rows)
run (c ∷ cs) rows =
    let (ids, after) = step c rows in let (later, last) = run cs after in (ids ++ later, last)

-- An insert, a claim before `until`, a release of another workflow or with another token than `token`,
-- or a change of another workflow.
abbrev pub IsQuiet : String → Option String → ℕ → Call → Type 0
IsQuiet id token until (insert row) = Unit
IsQuiet id token until (claim now lease_ms other i) = now < until
IsQuiet id token until (release i other) = (i ≢ id) ⊎ (token ≢ some other)
IsQuiet id token until (fail i message) = i ≢ id
IsQuiet id token until (update i f) =
    (i ≢ id) × ((row : WorkflowInstance) → (f row).workflow_id ≡ row.workflow_id)

abbrev pub AllQuiet : String → Option String → ℕ → List Call → Type 0
AllQuiet id token until [] = Unit
AllQuiet id token until (c ∷ cs) = IsQuiet id token until c × AllQuiet id token until cs
