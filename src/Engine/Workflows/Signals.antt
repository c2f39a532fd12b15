-- ===== src/Engine/Workflows/Signals.antt =====
-- Signals are consumed once, in the order in which they came.
use chimpbase.Prelude.{
  ℕ, ◌≤◌, ◌<◌, ◌≡◌, ◌≢◌, refl, sym, subst, ap, ◌∙◌, inl, inr, String, true, false, some, List, [],
  ◌∷◌, In, All, All-In, arith, ◌==◌, eq_iff, Bool-cases,
}
use chimpbase.Workflow.{WorkflowSignal}
use chimpbase.Engine.Workflows.{is_waiting_for, find_pending_workflow_signal, consume_signal}

-- The ids rise along the table.
abbrev pub IsOrdered : List WorkflowSignal → Type 0
IsOrdered [] = Unit
IsOrdered (signal ∷ signals) = All (λ r. signal.id < r.id) signals × IsOrdered signals

-- What the search finds: a signal that waits under that name, and no other that waits has a smaller
-- id.
pub record IsOldest (workflow_id name : String) (signals : List WorkflowSignal)
    (found : WorkflowSignal) : Type 0 where
  pub listed : In found signals
  pub workflow : found.workflow_id ≡ workflow_id
  pub named : found.signal_name ≡ name
  pub unconsumed : found.consumed ≡ false
  pub waits : is_waiting_for workflow_id name found ≡ true
  pub oldest :
      (other : WorkflowSignal)
      → In other signals
      → is_waiting_for workflow_id name other ≡ true
      → found.id ≤ other.id

waits_lem :
    (workflow_id name : String) (signal : WorkflowSignal)
    → is_waiting_for workflow_id name signal ≡ true
    → (signal.workflow_id ≡ workflow_id) × (signal.signal_name ≡ name) × (signal.consumed ≡ false)
waits_lem workflow_id name signal e = (
  (eq_iff signal.workflow_id workflow_id).0 (ground (arith, e)),
  (eq_iff signal.signal_name name).0 (ground (arith, e)),
  ground (arith, e),
)

find_signal-IsOldest :
    (workflow_id name : String) (signals : List WorkflowSignal) (found : WorkflowSignal)
    → IsOrdered signals
    → find_pending_workflow_signal workflow_id name signals ≡ some found
    → IsOldest workflow_id name signals found
unfolding find_pending_workflow_signal
find_signal-IsOldest workflow_id name [] found o e = cc
find_signal-IsOldest workflow_id name (signal ∷ signals) found o e =
    elim (Bool-cases (is_waiting_for workflow_id name signal)) [
      | inl waits ↦
          let same : signal ≡ found = ground arith in
          let fields = waits_lem workflow_id name signal waits in
          subst (IsOldest workflow_id name (signal ∷ signals)) same (record {
            listed = inl refl;
            workflow = fields.0;
            named = fields.1;
            unconsumed = fields.2;
            waits = waits;
            oldest = λ other i w. elim i [
              | inl here ↦ rw here (omega arith)
              | inr later ↦
                  let above = All-In (λ r. signal.id < r.id) signals o.0 other later in
                  omega (arith, above)
            ];
          })
      | inr passed ↦
          let rest = find_signal-IsOldest workflow_id name signals found o.1 (ground arith) in
          record {
            listed = inr rest.listed;
            workflow = rest.workflow;
            named = rest.named;
            unconsumed = rest.unconsumed;
            waits = rest.waits;
            oldest = λ other i w. elim i [
              | inl here ↦ absurd (
                  false_ne_true
                    (sym passed ∙ (ap (is_waiting_for workflow_id name) (sym here) ∙ w)))
              | inr later ↦ rest.oldest other later w
            ];
          }
    ]
  where
    false_ne_true : false ≡ true → ⊥
    false_ne_true p = cc

-- After the signal that was found is consumed, no row with its id waits.
consumed_id :
    (workflow_id name : String) (id : ℕ) (signals : List WorkflowSignal) (other : WorkflowSignal)
    → In other (consume_signal id signals)
    → other.id ≡ id
    → is_waiting_for workflow_id name other ≡ false
unfolding consume_signal
consumed_id workflow_id name id [] other i e = absurd i
consumed_id workflow_id name id (signal ∷ signals) other (inl here) e =
    elim (Bool-cases (signal.id == id)) [ inl same ↦ ground arith | inr different ↦ ground arith ]
consumed_id workflow_id name id (signal ∷ signals) other (inr i) e =
    consumed_id workflow_id name id signals other i e

found_there :
    (workflow_id name : String) (signals : List WorkflowSignal) (found : WorkflowSignal)
    → find_pending_workflow_signal workflow_id name signals ≡ some found
    → In found signals × (is_waiting_for workflow_id name found ≡ true)
unfolding find_pending_workflow_signal
found_there workflow_id name [] found e = cc
found_there workflow_id name (signal ∷ signals) found e =
    elim (Bool-cases (is_waiting_for workflow_id name signal)) [
      | inl waits ↦
          let same : signal ≡ found = ground arith in
          (inl (sym same), subst (λ r. is_waiting_for workflow_id name r ≡ true) same waits)
      | inr passed ↦
          let (i, w) = found_there workflow_id name signals found (ground arith) in (inr i, w)
    ]

still_there :
    (workflow_id name : String) (id : ℕ) (signals : List WorkflowSignal) (other : WorkflowSignal)
    → In other (consume_signal id signals)
    → is_waiting_for workflow_id name other ≡ true
    → In other signals
unfolding consume_signal
still_there workflow_id name id [] other i w = i
still_there workflow_id name id (signal ∷ signals) other (inl here) w =
    elim (Bool-cases (signal.id == id)) [
      | inl same ↦ ground arith
      | inr different ↦ inl (ground arith)
    ]
still_there workflow_id name id (signal ∷ signals) other (inr i) w =
    inr (still_there workflow_id name id signals other i w)

-- In a table in the order of its ids the signal found is for the workflow and under the name, is
-- not consumed, and is the oldest such signal, and the one found after it is consumed is younger.
pub find_pending_workflow_signal-IsOldest :
    (workflow_id name : String) (signals : List WorkflowSignal) (found : WorkflowSignal)
    → IsOrdered signals
    → find_pending_workflow_signal workflow_id name signals ≡ some found
    → IsOldest workflow_id name signals found
      × ((next : WorkflowSignal)
          → find_pending_workflow_signal workflow_id name (consume_signal found.id signals)
            ≡ some next
          → found.id < next.id)
find_pending_workflow_signal-IsOldest workflow_id name signals found o e =
    let first = find_signal-IsOldest workflow_id name signals found o e in
    (
      first,
      λ next e'.
          let (i, w) = found_there workflow_id name (consume_signal found.id signals) next e' in
          let le = first.oldest next (still_there workflow_id name found.id signals next i w) w in
          let other : next.id ≢ found.id = λ same.
            false_ne_true (sym (consumed_id workflow_id name found.id signals next i same) ∙ w) in
          elim (Bool-cases (next.id == found.id)) [
            | inl same ↦ absurd (other (ground arith))
            | inr different ↦ ground arith
          ],
    )
  where
    false_ne_true : false ≡ true → ⊥
    false_ne_true p = cc
