-- ===== src/Contracts/Versions/Compatible.antt =====
-- What the verdict on two contracts, and a version, promise.
use chimpbase.Prelude.{
  ◌≤◌, ◌≡◌, refl, sym, ap, subst, ◌∙◌, inl, inr, String, Bool, true, List, [], ◌∷◌, ◌++◌, In, All,
  ltb, str_eq, eq_iff, Bool-cases, or_else, arith,
}
use chimpbase.Contracts.Values.{Json, end}
use chimpbase.Contracts.Steps.{
  Compatibility, identical, additive, requires_migration, breaking, RegisteredStep, rank, step_ids,
  merge_workflow_compatibility, compare_workflow_steps,
}
use chimpbase.Contracts.Steps.Prefix.{IsWithin, IsKept, compare-IsKept}
use chimpbase.Contracts.Versions.{
  WorkflowMode, run, steps, WorkflowContract, same_mode, compare_schema_shape,
  compare_record_schemas, compare_workflow_contracts,
}

-- A merge is no better than either part.
pub merge-rank :
    (a b : Compatibility)
    → (rank a ≤ rank (merge_workflow_compatibility a b))
      × (rank b ≤ rank (merge_workflow_compatibility a b))
unfolding merge_workflow_compatibility
merge-rank a b = elim (Bool-cases (ltb (rank a) (rank b))) [
  | inl e ↦ (rw e (ground (arith, e)), rw e (omega arith))
  | inr e ↦ (rw e (omega arith), rw e (ground (arith, e)))
]

-- The ids of the steps that are left, if the steps are compared to be no worse than `c`.
abbrev pub IsAtLeast : Compatibility → List RegisteredStep → List RegisteredStep → Type 0
IsAtLeast breaking previous next = Unit
IsAtLeast requires_migration previous next =
    All (λ step. In step next) previous × IsWithin (step_ids previous) (step_ids next)
IsAtLeast additive previous next =
    All (λ step. In step next) previous
    × ((extra : List String) × (step_ids next ≡ step_ids previous ++ extra))
IsAtLeast identical previous next =
    All (λ step. In step next) previous × (step_ids next ≡ step_ids previous)

append_none : {A : Type 0} (xs : List A) → xs ≡ xs ++ []
append_none [] = refl
append_none (x ∷ xs) = ap (λ ys. x ∷ ys) (append_none xs)

IsWithin-prefix : (xs ys : List String) → IsWithin xs (xs ++ ys)
IsWithin-prefix [] ys = tt
IsWithin-prefix (x ∷ xs) ys = inl (refl, IsWithin-prefix xs ys)

worsen :
    (a c : Compatibility) (previous next : List RegisteredStep)
    → rank a ≤ rank c
    → IsKept a previous next
    → IsAtLeast c previous next
worsen a breaking previous next le kept = tt
worsen breaking requires_migration previous next le kept = absurd (omega (arith, le))
worsen requires_migration requires_migration previous next le kept = kept
worsen additive requires_migration previous next le (all, (id, ids, e)) = (
  all,
  subst (IsWithin (step_ids previous)) (sym e) (IsWithin-prefix (step_ids previous) (id ∷ ids)),
)
worsen identical requires_migration previous next le (all, e) = (
  all,
  subst (IsWithin (step_ids previous)) (sym (e ∙ append_none (step_ids previous)))
      (IsWithin-prefix (step_ids previous) []),
)
worsen breaking additive previous next le kept = absurd (omega (arith, le))
worsen requires_migration additive previous next le kept = absurd (omega (arith, le))
worsen additive additive previous next le (all, (id, ids, e)) = (all, (id ∷ ids, e))
worsen identical additive previous next le (all, e) =
    (all, ([], e ∙ append_none (step_ids previous)))
worsen breaking identical previous next le kept = absurd (omega (arith, le))
worsen requires_migration identical previous next le kept = absurd (omega (arith, le))
worsen additive identical previous next le kept = absurd (omega (arith, le))
worsen identical identical previous next le kept = kept

same_mode_lem : (a b : WorkflowMode) → same_mode a b ≡ true → a ≡ b
same_mode_lem run run e = refl
same_mode_lem run steps e = cc
same_mode_lem steps run e = cc
same_mode_lem steps steps e = refl

-- Contracts that are not `breaking` have the same name and mode.
abbrev pub IsSameWorkflow :
    {Number : Type 0} → Compatibility → WorkflowContract Number → WorkflowContract Number → Type 0
IsSameWorkflow breaking previous next = Unit
IsSameWorkflow requires_migration previous next =
    (previous.name ≡ next.name) × (previous.mode ≡ next.mode)
IsSameWorkflow additive previous next = (previous.name ≡ next.name) × (previous.mode ≡ next.mode)
IsSameWorkflow identical previous next = (previous.name ≡ next.name) × (previous.mode ≡ next.mode)

same_name_mode :
    {Number : Type 0} (c : Compatibility) (previous next : WorkflowContract Number)
    → previous.name ≡ next.name
    → previous.mode ≡ next.mode
    → IsSameWorkflow c previous next
same_name_mode breaking previous next named moded = tt
same_name_mode requires_migration previous next named moded = (named, moded)
same_name_mode additive previous next named moded = (named, moded)
same_name_mode identical previous next named moded = (named, moded)

-- What a verdict on two contracts promises.
abbrev pub IsCompatible :
    {Number : Type 0} → Compatibility → WorkflowContract Number → WorkflowContract Number → Type 0
IsCompatible c previous next =
    IsSameWorkflow c previous next × IsAtLeast c previous.steps next.steps

module _ {Number : Type 0} (nonzero : Number → Bool) (same : Json Number → Json Number → Bool) where
  merged :
      (v a b d : Compatibility)
      → rank v
        ≤ rank (
            merge_workflow_compatibility
              (merge_workflow_compatibility
                (merge_workflow_compatibility (merge_workflow_compatibility identical v) a)
                b)
              d)
  merged v a b d =
      let first = merge_workflow_compatibility identical v in
      let second = merge_workflow_compatibility first a in
      let third = merge_workflow_compatibility second b in
      omega (
        arith,
        (merge-rank identical v).1,
        (merge-rank first a).0,
        (merge-rank second b).0,
        (merge-rank third d).0,
      )

  -- A verdict of compareWorkflowContracts other than breaking means that the names and the modes
  -- agree and that every step of the previous contract stands unchanged in the next, with the ids
  -- in the same order: as all of the ids if it is identical, as the first ones if it is additive,
  -- and among them if it is requires_migration.
  pub compare_contracts-IsCompatible :
      (previous next : WorkflowContract Number)
      → IsCompatible (compare_workflow_contracts nonzero same previous next) previous next
  unfolding compare_workflow_contracts
  compare_contracts-IsCompatible previous next =
      elim (Bool-cases (str_eq previous.name next.name)) [
        | inl named ↦ elim (Bool-cases (same_mode previous.mode next.mode)) [
          | inl moded ↦
              rw (named, moded, compare_workflow_contracts)
                (
                  same_name_mode
                      (merge_workflow_compatibility
                        (merge_workflow_compatibility
                          (merge_workflow_compatibility
                            (merge_workflow_compatibility identical
                              (compare_workflow_steps previous.steps next.steps))
                            (compare_record_schemas nonzero same
                              (or_else previous.signal_schemas end)
                              (or_else next.signal_schemas end)))
                          (compare_schema_shape nonzero same previous.input_schema
                            next.input_schema))
                        (compare_schema_shape nonzero same previous.state_schema next.state_schema))
                      previous next ((eq_iff previous.name next.name).0 named)
                      (same_mode_lem previous.mode next.mode moded),
                  worsen (compare_workflow_steps previous.steps next.steps)
                      (merge_workflow_compatibility
                        (merge_workflow_compatibility
                          (merge_workflow_compatibility
                            (merge_workflow_compatibility identical
                              (compare_workflow_steps previous.steps next.steps))
                            (compare_record_schemas nonzero same
                              (or_else previous.signal_schemas end)
                              (or_else next.signal_schemas end)))
                          (compare_schema_shape nonzero same previous.input_schema
                            next.input_schema))
                        (compare_schema_shape nonzero same previous.state_schema next.state_schema))
                      previous.steps next.steps
                      (merged (compare_workflow_steps previous.steps next.steps)
                        (compare_record_schemas nonzero same (or_else previous.signal_schemas end)
                          (or_else next.signal_schemas end))
                        (compare_schema_shape nonzero same previous.input_schema next.input_schema)
                        (compare_schema_shape nonzero same previous.state_schema next.state_schema))
                      (compare-IsKept previous.steps next.steps),
                )
          | inr other ↦ rw (named, other, compare_workflow_contracts) (tt, tt)
        ]
        | inr other ↦ rw (other, compare_workflow_contracts) (tt, tt)
      ]
