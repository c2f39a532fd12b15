-- ===== src/Engine/Workflows/Lease.antt =====
-- Who may run a workflow, and what happens to one that has ended.
use chimpbase.Prelude.{
  ℕ, ◌+◌, ◌<◌, ◌≡◌, refl, ap, ◌∙◌, inl, inr, String, Bool, true, false, Option, none, some, List,
  [], ◌∷◌, ◌++◌, ◌≢◌, ◌⊎◌, In, sym, subst, arith, str_eq, eq_iff, concat, Bool-cases, if◌then◌else◌,
}
use chimpbase.Prelude.Maps.{str_ne}
use chimpbase.Schedules.{has_token}
use chimpbase.Workflow.{
  WorkflowStatus, completed, failed, running, sleeping, waiting_signal, WorkflowInstance,
}
use chimpbase.Prelude.Result.{ok, err}
use chimpbase.Engine.{Engine}
use chimpbase.Engine.Workflows.Rows.{
  map_row, get_workflow-update_workflow, get_workflow-other, get_workflow-append,
}
use chimpbase.Engine.Workflows.Calls.{
  Call, insert, claim, release, fail, update, insert_new, granted_ids, step, run, IsQuiet, AllQuiet,
}
use chimpbase.Engine.Workflows.Loop.{
  Definitions, run_row, iterate, run_rounds, run_workflow_instance_until_suspended,
}
use chimpbase.Engine.Workflows.{
  is_terminal, signal_workflow, get_workflow, update_workflow, is_leasable, lease_row, unlease_row,
  claim_row, claim_workflow_lease, release_workflow_lease, fail_workflow_instance,
}

true_ne_false : true ≡ false → ⊥
true_ne_false e = cc

granted :
    (now lease_ms : ℕ) (token workflow_id : String) (o : Option WorkflowInstance)
    (rows after : List WorkflowInstance)
    → claim_row now lease_ms token workflow_id o rows ≡ (true, after)
    → (row : WorkflowInstance) × (o ≡ some row)
      × (after ≡ update_workflow workflow_id (lease_row token (now + lease_ms)) rows)
granted now lease_ms token workflow_id none rows after e =
    absurd (false_ne_true (ap (λ (r : Bool × List WorkflowInstance). r.0) e))
  where
    false_ne_true : false ≡ true → ⊥
    false_ne_true p = cc
granted now lease_ms token workflow_id (some row) rows after e = (
  row,
  refl,
  elim (Bool-cases (is_leasable now row)) [ inl yes_ ↦ ground arith | inr no_ ↦ ground arith ],
)

refused_later :
    (later expires : ℕ) (token : String) (row : WorkflowInstance)
    → later < expires
    → is_leasable later (lease_row token expires row) ≡ false
unfolding is_leasable
refused_later later expires token row early = ground arith

not-In-append : (x : String) (xs ys : List String) → ¬ In x xs → ¬ In x ys → ¬ In x (xs ++ ys)
not-In-append x [] ys a b i = b i
not-In-append x (y ∷ xs) ys a b (inl e) = a (inl e)
not-In-append x (y ∷ xs) ys a b (inr i) = not-In-append x xs ys (λ j. a (inr j)) b i

token_differs :
    (token : Option String) (other : String) → token ≢ some other → has_token other token ≡ false
token_differs none other h = refl
token_differs (some t) other h = str_ne t other (λ e. h (ap some e))

module _ (id : String) (until : ℕ) (row : WorkflowInstance)
    (held : (now : ℕ) → now < until → is_leasable now row ≡ false) where
  abbrev Kept : List String × List WorkflowInstance → Type 0
  Kept r = ¬ In id r.0 × (get_workflow id r.1 ≡ some row)

  inserted :
      (new : WorkflowInstance) (o : Option WorkflowInstance) (rows : List WorkflowInstance)
      → get_workflow id rows ≡ some row
      → get_workflow id (insert_new new o rows) ≡ some row
  inserted new none rows e = get_workflow-append id rows (new ∷ []) row e
  inserted new (some taken) rows e = e

  claim_other :
      (now lease_ms : ℕ) (token i : String) (o : Option WorkflowInstance)
      (rows : List WorkflowInstance)
      → i ≢ id
      → get_workflow id rows ≡ some row
      → Kept (granted_ids i (claim_row now lease_ms token i o rows))
  claim_other now lease_ms token i none rows other e = (λ j. j, e)
  claim_other now lease_ms token i (some r) rows other e = elim (Bool-cases (is_leasable now r)) [
    | inl free ↦ rw free (
      λ j. elim j [ inl same ↦ other (sym same) | inr nowhere ↦ nowhere ],
      get_workflow-other id i (lease_row token (now + lease_ms)) (λ w. refl) other rows ∙ e,
    )
    | inr shut ↦ rw shut (λ j. j, e)
  ]

  claimed :
      (now lease_ms : ℕ) (token i : String) (rows : List WorkflowInstance)
      → now < until
      → get_workflow id rows ≡ some row
      → Kept (granted_ids i (claim_workflow_lease now lease_ms token i rows))
  unfolding claim_workflow_lease
  claimed now lease_ms token i rows early e = elim (Bool-cases (str_eq i id)) [
    | inr off ↦
        let other : i ≢ id = λ same. true_ne_false (sym ((eq_iff i id).1 same) ∙ off) in
        claim_other now lease_ms token i (get_workflow i rows) rows other e
    | inl mine ↦
        let at : id ≡ i = sym ((eq_iff i id).0 mine) in
        let found = subst (λ k. get_workflow k rows ≡ some row) at e in
        rw (found, held now early) (λ j. j, e)
  ]

  released :
      (i other : String) (rows : List WorkflowInstance)
      → (i ≢ id) ⊎ (row.lease_token ≢ some other)
      → get_workflow id rows ≡ some row
      → get_workflow id (release_workflow_lease i other rows) ≡ some row
  unfolding release_workflow_lease
  released i other rows differs e =
      let f : WorkflowInstance → WorkflowInstance =
        λ r. if has_token other r.lease_token then unlease_row r else r in
      let keeps_id = release_keeps other in
      elim (Bool-cases (str_eq i id)) [
        | inr off ↦
            let apart : i ≢ id = λ same. true_ne_false (sym ((eq_iff i id).1 same) ∙ off) in
            get_workflow-other id i f keeps_id apart rows ∙ e
        | inl mine ↦
            let at : id ≡ i = sym ((eq_iff i id).0 mine) in
            let kept : has_token other row.lease_token ≡ false = elim differs [
              | inl apart ↦ absurd (apart ((eq_iff i id).0 mine))
              | inr d ↦ token_differs row.lease_token other d
            ] in
            subst (λ k. get_workflow id (update_workflow k f rows) ≡ some row) at
              (get_workflow-update_workflow id f keeps_id rows ∙ rw (e, kept) refl)
      ]
    where
      release_keeps :
          (token : String) (r : WorkflowInstance)
          → (if has_token token r.lease_token then unlease_row r else r).workflow_id ≡ r.workflow_id
      release_keeps token r = elim (Bool-cases (has_token token r.lease_token)) [
        | inl e' ↦ rw e' refl
        | inr e' ↦ rw e' refl
      ]

  step-keeps :
      (c : Call) (rows : List WorkflowInstance)
      → IsQuiet id row.lease_token until c
      → get_workflow id rows ≡ some row
      → Kept (step c rows)
  unfolding step fail_workflow_instance
  step-keeps (insert new) rows q e =
      (λ j. j, inserted new (get_workflow new.workflow_id rows) rows e)
  step-keeps (claim now lease_ms token i) rows q e = claimed now lease_ms token i rows q e
  step-keeps (release i other) rows q e = (λ j. j, released i other rows q e)
  step-keeps (fail i message) rows q e = (λ j. j, get_workflow-other id i _ (λ r. refl) q rows ∙ e)
  step-keeps (update i f) rows q e = (λ j. j, get_workflow-other id i f q.1 q.0 rows ∙ e)

  run-keeps :
      (cs : List Call) (rows : List WorkflowInstance)
      → AllQuiet id row.lease_token until cs
      → get_workflow id rows ≡ some row
      → Kept (run cs rows)
  unfolding run
  run-keeps [] rows q e = (λ j. j, e)
  run-keeps (c ∷ cs) rows q e =
      let first = step-keeps c rows q.0 e in
      let rest = run-keeps cs (step c rows).1 q.1 first.1 in
      (not-In-append id (step c rows).0 (run cs (step c rows).1).0 first.0 rest.0, rest.1)

-- After claimWorkflowLease has given a lease, through any calls on the table that are claims made
-- before the lease runs out, inserts, changes of other workflows and releases of others or with
-- another token, but no release or change by the holder, no claim of the workflow is granted and
-- its row stays as the first claim left it.
pub lease_exclusive :
    (now lease_ms : ℕ) (token id : String) (rows after : List WorkflowInstance) (cs : List Call)
    → claim_workflow_lease now lease_ms token id rows ≡ (true, after)
    → AllQuiet id (some token) (now + lease_ms) cs
    → ¬ In id (run cs after).0 × (get_workflow id (run cs after).1 ≡ get_workflow id after)
unfolding claim_workflow_lease
lease_exclusive now lease_ms token id rows after cs given quiet =
    let (row, there, same) =
      granted now lease_ms token id (get_workflow id rows) rows after given in
    let held : get_workflow id after ≡ some (lease_row token (now + lease_ms) row) =
      ap (get_workflow id) same
      ∙ (get_workflow-update_workflow id (lease_row token (now + lease_ms)) (λ r. refl) rows
          ∙ ap (map_row (lease_row token (now + lease_ms))) there) in
    let kept =
      run-keeps id (now + lease_ms) (lease_row token (now + lease_ms) row)
        (λ later early. refused_later later (now + lease_ms) token row early) cs after quiet held in
    (kept.0, kept.1 ∙ sym held)

terminal_round :
    (definitions : Definitions) (id : String) (status : WorkflowStatus) (row : WorkflowInstance)
    (s : Engine)
    → (status ≡ completed) ⊎ (status ≡ failed)
    → run_row definitions id status row s ≡ (ok false, s)
terminal_round definitions id completed row s e = refl
terminal_round definitions id failed row s e = refl
terminal_round definitions id running row s e = elim e [ inl x ↦ cc | inr x ↦ cc ]
terminal_round definitions id sleeping row s e = elim e [ inl x ↦ cc | inr x ↦ cc ]
terminal_round definitions id waiting_signal row s e = elim e [ inl x ↦ cc | inr x ↦ cc ]

abbrev pub with_workflows : List WorkflowInstance → Engine → Engine
with_workflows rows s = record s { db = record (s.db) { workflows = rows } }

-- For a workflow that has completed or failed, through any claims made before a given time, which
-- may be any, inserts, changes of other workflows and releases of others or with a token that its
-- row does not have, no claim of it is granted and its row does not change; afterwards running it
-- changes nothing, and a signal for it throws and is not stored.
pub ended_final :
    (definitions : Definitions) (id : String) (row : WorkflowInstance) (until : ℕ)
    (rows : List WorkflowInstance) (cs : List Call) (s : Engine) (name payload_json : String)
    → get_workflow id rows ≡ some row
    → (row.status ≡ completed) ⊎ (row.status ≡ failed)
    → AllQuiet id row.lease_token until cs
    → ¬ In id (run cs rows).0
      × (get_workflow id (run cs rows).1 ≡ some row)
      × (run_workflow_instance_until_suspended definitions id (with_workflows (run cs rows).1 s)
          ≡ (ok tt, with_workflows (run cs rows).1 s))
      × (signal_workflow id name payload_json (with_workflows (run cs rows).1 s)
          ≡ (err (concat "workflow is terminal: " id), with_workflows (run cs rows).1 s))
unfolding is_leasable run_workflow_instance_until_suspended run_rounds iterate signal_workflow
ended_final definitions id row until rows cs s name payload_json there ended quiet =
    let shut : (now : ℕ) → now < until → is_leasable now row ≡ false =
      λ now early. elim ended [ inl e ↦ rw e refl | inr e ↦ rw e refl ] in
    let terminal : is_terminal row.status ≡ true = elim ended [
      | inl e ↦ rw e refl
      | inr e ↦ rw e refl
    ] in
    let kept = run-keeps id until row shut cs rows quiet there in
    let here = kept.1 in
    let stops =
      terminal_round definitions id row.status row (with_workflows (run cs rows).1 s) ended in
    (kept.0, here, rw (here, stops) refl, rw (here, terminal) refl)
