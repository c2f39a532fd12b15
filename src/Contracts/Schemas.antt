-- ===== src/Contracts/Schemas.antt =====
-- `compareSchemaShape` and `compareRecordSchemas` (packages/runtime/index.ts). `same` tells whether two
-- values have the same `stableSerialize`, and `nonzero` which numbers are truthy. A result of `breaking`
-- cannot be improved by a merge, so a return of it is written as a value.
use chimpbase.Prelude.{
  ℕ, zero, suc, String, Bool, true, false, not, ◌&&◌, ◌||◌, Option, none, some, ltb, str_eq,
  if◌then◌else◌,
}
use chimpbase.Contracts.Values.{
  Json, null, boolean, number, text, array, object, Items, nil, item, Fields, end, field, property,
}
use chimpbase.Contracts.Steps.{
  Compatibility, identical, additive, breaking, merge_workflow_compatibility,
}

module _ {Number : Type 0} where
  unfoldable pub has_text : String → Items Number → Bool
  has_text key nil = false
  has_text key (item (text t) items) = if str_eq t key then true else has_text key items
  has_text key (item null items) = has_text key items
  has_text key (item (boolean b) items) = has_text key items
  has_text key (item (number n) items) = has_text key items
  has_text key (item (array xs) items) = has_text key items
  has_text key (item (object fs) items) = has_text key items

  unfoldable pub count_items : Items Number → ℕ
  count_items nil = zero
  count_items (item value items) = suc (count_items items)

  -- `Array.isArray(value) ? value : []`
  abbrev pub array_or_empty : Option (Json Number) → Items Number
  array_or_empty none = nil
  array_or_empty (some (array items)) = items
  array_or_empty (some null) = nil
  array_or_empty (some (boolean b)) = nil
  array_or_empty (some (number n)) = nil
  array_or_empty (some (text t)) = nil
  array_or_empty (some (object fs)) = nil

  abbrev pub is_array : Option (Json Number) → Bool
  is_array none = false
  is_array (some (array items)) = true
  is_array (some null) = false
  is_array (some (boolean b)) = false
  is_array (some (number n)) = false
  is_array (some (text t)) = false
  is_array (some (object fs)) = false

  -- `isPlainObject(value) ? value : {}`
  abbrev pub object_or_empty : Option (Json Number) → Fields Number
  object_or_empty none = end
  object_or_empty (some (object fs)) = fs
  object_or_empty (some null) = end
  object_or_empty (some (boolean b)) = end
  object_or_empty (some (number n)) = end
  object_or_empty (some (text t)) = end
  object_or_empty (some (array items)) = end

  abbrev pub is_defined : Option (Json Number) → Bool
  is_defined none = false
  is_defined (some value) = true

  -- `value === "object"` and the like.
  abbrev pub is_text : String → Option (Json Number) → Bool
  is_text t none = false
  is_text t (some (text s)) = str_eq s t
  is_text t (some null) = false
  is_text t (some (boolean b)) = false
  is_text t (some (number n)) = false
  is_text t (some (array items)) = false
  is_text t (some (object fs)) = false

  -- The loop over the properties of `next`.
  unfoldable pub compare_new_properties :
      Fields Number → Items Number → Items Number → Fields Number → Compatibility → Compatibility
  unfolding property has_text merge_workflow_compatibility
  compare_new_properties previous before after end compatibility = compatibility
  compare_new_properties previous before after (field key value next) compatibility =
      let here =
        if is_defined (property key previous)
        then if not (has_text key before) && has_text key after then breaking else compatibility
        else merge_workflow_compatibility compatibility
            (if has_text key after then breaking else additive) in
      compare_new_properties previous before after next here

module _ {Number : Type 0} (nonzero : Number → Bool) (same : Json Number → Json Number → Bool) where
  abbrev pub is_truthy : Option (Json Number) → Bool
  is_truthy none = false
  is_truthy (some null) = false
  is_truthy (some (boolean b)) = b
  is_truthy (some (number n)) = nonzero n
  is_truthy (some (text t)) = not (str_eq t "")
  is_truthy (some (array items)) = true
  is_truthy (some (object fs)) = true

  -- Whether the two serializations agree; undefined agrees with itself alone.
  abbrev pub same_option : Option (Json Number) → Option (Json Number) → Bool
  same_option none none = true
  same_option none (some b) = false
  same_option (some a) none = false
  same_option (some a) (some b) = same a b

  unfoldable pub has_value : Json Number → Items Number → Bool
  has_value value nil = false
  has_value value (item v items) = if same v value then true else has_value value items

  -- Whether some value of the first list is missing in the second.
  unfoldable pub misses_value : Items Number → Items Number → Bool
  unfolding has_value
  misses_value nil next = false
  misses_value (item value items) next =
      if has_value value next then misses_value items next else true

  unfoldable pub compare_enums : Fields Number → Fields Number → Compatibility
  unfolding property misses_value count_items
  compare_enums previous next =
      let before = array_or_empty (property "enum" previous) in
      let after = array_or_empty (property "enum" next) in
      if is_array (property "enum" previous) || is_array (property "enum" next)
      then if misses_value before after
        then breaking
        else if ltb (count_items before) (count_items after)
        then additive
        else identical
      else identical

  abbrev pub is_object_schema : Fields Number → Bool
  is_object_schema schema =
      is_text "object" (property "type" schema)
      || (is_truthy (property "properties" schema) || is_truthy (property "required" schema))

  abbrev pub is_array_schema : Fields Number → Bool
  is_array_schema schema =
      is_text "array" (property "type" schema) || is_defined (property "items" schema)
