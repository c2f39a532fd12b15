-- ===== src/Contracts/Versions/Signals.antt =====
-- What the verdict on the signals of two contracts says of each of them.
use chimpbase.Prelude.{
  ◌≤◌, ◌≡◌, refl, sym, subst, ◌⊎◌, inl, inr, String, Bool, some, Bool-cases, Option-cases, arith,
}
use chimpbase.Contracts.Values.{Json, Fields, end, field, property}
use chimpbase.Contracts.Steps.{
  Compatibility, identical, additive, breaking, rank, merge_workflow_compatibility,
}
use chimpbase.Contracts.Schemas.{is_defined}
use chimpbase.Contracts.Shapes.{compare_values}
use chimpbase.Contracts.Versions.{add_new_keys, compare_old_keys, compare_record_schemas}
use chimpbase.Contracts.Versions.Compatible.{merge-rank}

abbrev pub AllFields : {Number : Type 0} → (String → Json Number → Type 0) → Fields Number → Type 0
AllFields P end = Unit
AllFields P (field key value fields) = P key value × AllFields P fields

module _ {Number : Type 0} (nonzero : Number → Bool) (same : Json Number → Json Number → Bool) where
  -- The key has a schema in `next` too, on which the verdict is not worse than `c`.
  abbrev pub IsStillThere : Compatibility → Fields Number → String → Json Number → Type 0
  IsStillThere c next key value =
      (schema : Json Number) × ((property key next ≡ some schema)
        × (rank (compare_values nonzero same value schema) ≤ rank c))

  new_keys_rank :
      (previous next : Fields Number) (c : Compatibility)
      → rank c ≤ rank (add_new_keys nonzero same previous next c)
  unfolding add_new_keys
  new_keys_rank previous end c = omega arith
  new_keys_rank previous (field key value next) c =
      elim (Bool-cases (is_defined (property key previous))) [
        | inl known ↦ rw known (new_keys_rank previous next c)
        | inr new ↦
            let after = new_keys_rank previous next (merge_workflow_compatibility c additive) in
            rw (new, add_new_keys) (omega (arith, (merge-rank c additive).0, after))
      ]

  abbrev Kept : Compatibility → Fields Number → Fields Number → Compatibility → Type 0
  Kept c previous next v =
      (v ≡ breaking) ⊎ ((rank c ≤ rank v) × AllFields (IsStillThere v next) previous)

  old_keys-Kept :
      (all_previous previous next : Fields Number) (c : Compatibility)
      → Kept c previous next (compare_old_keys nonzero same all_previous previous next c)
  unfolding compare_old_keys
  old_keys-Kept all_previous end next c = inr (new_keys_rank all_previous next c, tt)
  old_keys-Kept all_previous (field key value previous) next c =
      elim (Option-cases (property key next)) [
        | inl gone ↦ inl (rw (gone, compare_old_keys) refl)
        | inr (schema, found) ↦
            let verdict = compare_values nonzero same value schema in
            let bound = merge-rank c verdict in
            let merged = merge_workflow_compatibility c verdict in
            let step : compare_old_keys nonzero same all_previous (field key value previous) next c
                ≡ compare_old_keys nonzero same all_previous previous next merged =
              rw (found, compare_old_keys) refl in
            subst (Kept c (field key value previous) next) (sym step)
              (elim (old_keys-Kept all_previous previous next merged) [
                | inl broken ↦ inl broken
                | inr (le, rest) ↦ inr (
                  omega (arith, bound.0, le),
                  ((schema, (found, omega (arith, bound.1, le))), rest),
                )
              ])
      ]

  -- Unless the verdict of compareRecordSchemas is breaking, every signal of the previous contract
  -- has a schema in the next one too, and the verdict is no better than that of compareSchemaShape
  -- on the two.
  pub compare_record_schemas-IsStillThere :
      (previous next : Fields Number)
      → (compare_record_schemas nonzero same previous next ≡ breaking)
        ⊎ AllFields (IsStillThere (compare_record_schemas nonzero same previous next) next) previous
  unfolding compare_record_schemas
  compare_record_schemas-IsStillThere previous next =
      elim (old_keys-Kept previous previous next identical) [
        | inl broken ↦ inl broken
        | inr (le, rest) ↦ inr rest
      ]
