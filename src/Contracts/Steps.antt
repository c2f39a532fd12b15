-- ===== src/Contracts/Steps.antt =====
-- `mergeWorkflowCompatibility` and `compareWorkflowSteps` (packages/runtime/index.ts).
pub mod Prefix
pub mod Appended
use chimpbase.Prelude.{
  ℕ, suc, ◌+◌, String, Bool, true, false, not, ◌&&◌, ◌||◌, Option, none, some, List, [], ◌∷◌, map,
  length, ltb, ◌==◌, str_eq, find, if◌then◌else◌,
}
use chimpbase.Prelude.Maps.{includes}

pub data Compatibility : Type 0 where
  identical : Compatibility
  additive : Compatibility
  requires_migration : Compatibility
  breaking : Compatibility

pub data StepKind : Type 0 where
  workflow_action : StepKind
  workflow_sleep : StepKind
  workflow_wait_for_signal : StepKind

pub record RegisteredStep : Type 0 where
  pub action : Option String
  pub id : String
  pub kind : StepKind
  pub signal : Option String

abbrev pub rank : Compatibility → ℕ
rank identical = 0
rank additive = 1
rank requires_migration = 2
rank breaking = 3

unfoldable pub merge_workflow_compatibility : Compatibility → Compatibility → Compatibility
merge_workflow_compatibility current next = if ltb (rank current) (rank next) then next else current

abbrev pub same_kind : StepKind → StepKind → Bool
same_kind workflow_action workflow_action = true
same_kind workflow_sleep workflow_sleep = true
same_kind workflow_wait_for_signal workflow_wait_for_signal = true
same_kind a b = false

abbrev pub same_text : Option String → Option String → Bool
same_text none none = true
same_text (some a) (some b) = str_eq a b
same_text a b = false

abbrev pub same_step : RegisteredStep → RegisteredStep → Bool
same_step a b =
    same_kind a.kind b.kind && (same_text a.action b.action && same_text a.signal b.signal)

abbrev pub step_ids : List RegisteredStep → List String
step_ids steps = map (λ step. step.id) steps

-- Whether each step stands in `next` under its id, with the same kind, action and signal.
unfoldable pub keeps_steps : List RegisteredStep → List RegisteredStep → Bool
keeps_steps [] next = true
keeps_steps (step ∷ previous) next = elim (find (λ candidate. str_eq candidate.id step.id) next) [
  | none ↦ false
  | some next_step ↦ same_step next_step step && keeps_steps previous next
]

abbrev pub starts_with : String → List String → Bool
starts_with id [] = false
starts_with id (expected ∷ ids) = str_eq expected id

abbrev pub rest_of : List String → List String
rest_of [] = []
rest_of (id ∷ ids) = ids

abbrev pub is_some_left : List String → Bool
is_some_left [] = false
is_some_left (id ∷ ids) = true

-- The loop over the ids of `next`. `expected` are the ids of `previous` from `previousIndex` on, and
-- `all_ids` are all of them. The outcome is none for the early `breaking`, and otherwise whether a step is
-- inserted before one that is left, and the ids that are left.
unfoldable pub match_ids :
    List String → List String → Bool → List String → Option (Bool × List String)
unfolding includes
match_ids all_ids expected inserted [] = some (inserted, expected)
match_ids all_ids expected inserted (next_id ∷ next_ids) =
    let here = starts_with next_id expected in
    let rest =
      match_ids all_ids (if here then rest_of expected else expected)
        (if here then inserted else inserted || is_some_left expected) next_ids in
    if here then rest else if includes next_id all_ids then none else rest

abbrev pub verdict_of : ℕ → ℕ → Option (Bool × List String) → Compatibility
verdict_of before after none = breaking
verdict_of before after (some (inserted, id ∷ left)) = breaking
verdict_of before after (some (true, [])) = requires_migration
verdict_of before after (some (false, [])) = if after == before then identical else additive

unfoldable pub compare_workflow_steps : List RegisteredStep → List RegisteredStep → Compatibility
unfolding keeps_steps match_ids
compare_workflow_steps previous next =
    if keeps_steps previous next
    then verdict_of (length previous) (length next)
        (match_ids (step_ids previous) (step_ids previous) false (step_ids next))
    else breaking
