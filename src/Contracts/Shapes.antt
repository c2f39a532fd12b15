-- ===== src/Contracts/Shapes.antt =====
-- The recursion of `compareSchemaShape` over the values of the previous schema
-- (packages/runtime/index.ts).
use chimpbase.Prelude.{Bool, true, false, not, ◌&&◌, ◌||◌, none, some, str_eq, if◌then◌else◌}
use chimpbase.Contracts.Values.{
  Json, null, boolean, number, text, array, object, Items, Fields, end, field, property,
}
use chimpbase.Contracts.Steps.{
  Compatibility, identical, additive, requires_migration, breaking, merge_workflow_compatibility,
}
use chimpbase.Contracts.Schemas.{
  has_text, array_or_empty, object_or_empty, is_defined, same_option, compare_enums,
  is_object_schema, is_array_schema, compare_new_properties,
}

abbrev pub merge_required : Bool → Bool → Compatibility → Compatibility
merge_required before after compatibility =
    if before && not after
    then merge_workflow_compatibility compatibility additive
    else compatibility

abbrev pub is_breaking : Compatibility → Bool
is_breaking breaking = true
is_breaking identical = false
is_breaking additive = false
is_breaking requires_migration = false

module _ {Number : Type 0} where
  abbrev pub required_of : Fields Number → Items Number
  required_of schema = array_or_empty (property "required" schema)

  abbrev pub properties_of : Fields Number → Fields Number
  properties_of schema = object_or_empty (property "properties" schema)

  abbrev pub new_properties :
      Fields Number → Fields Number → Fields Number → Compatibility → Compatibility
  new_properties previous properties next compatibility =
      compare_new_properties properties (required_of previous) (required_of next)
        (properties_of next) compatibility

module _ {Number : Type 0} (nonzero : Number → Bool) (same : Json Number → Json Number → Bool) where
  -- Two objects whose serializations differ: `inside` and `items` are the verdicts on their properties
  -- and on their items.
  abbrev pub compare_objects :
      Fields Number → Fields Number → Compatibility → Compatibility → Compatibility
  compare_objects previous next inside items =
      if (is_defined (property "type" previous) || is_defined (property "type" next))
        && not (same_option nonzero same (property "type" previous) (property "type" next))
      then breaking
      else if is_breaking (compare_enums nonzero same previous next)
      then breaking
      else if is_object_schema nonzero same previous && is_object_schema nonzero same next
      then inside
      else if is_array_schema nonzero same previous && is_array_schema nonzero same next
      then items
      else breaking

unfoldable mutual
  unfolding property has_text merge_workflow_compatibility compare_enums compare_new_properties

  -- Two schemas that are defined.
  pub compare_values :
      {Number : Type 0}
      → (Number → Bool)
      → (Json Number → Json Number → Bool)
      → Json Number
      → Json Number
      → Compatibility
  compare_values nonzero same null next = if same null next then identical else breaking
  compare_values nonzero same (boolean b) next =
      if same (boolean b) next then identical else breaking
  compare_values nonzero same (number n) next = if same (number n) next then identical else breaking
  compare_values nonzero same (text t) next = if same (text t) next then identical else breaking
  compare_values nonzero same (array items) next =
      if same (array items) next then identical else breaking
  compare_values nonzero same (object previous) next =
      if same (object previous) next then identical else elim next [
        | object fields ↦
            compare_objects nonzero same previous fields
              (compare_properties nonzero same previous previous fields
                (compare_enums nonzero same previous fields))
              (compare_items nonzero same previous fields)
        | null ↦ breaking
        | boolean b ↦ breaking
        | number n ↦ breaking
        | text t ↦ breaking
        | array items ↦ breaking
      ]

  -- The properties of the previous schema, whose fields are gone through for `properties`.
  pub compare_properties :
      {Number : Type 0}
      → (Number → Bool)
      → (Json Number → Json Number → Bool)
      → Fields Number
      → Fields Number
      → Fields Number
      → Compatibility
      → Compatibility
  compare_properties nonzero same previous end next compatibility =
      new_properties previous end next compatibility
  compare_properties nonzero same previous (field key null fields) next compatibility =
      let rest = compare_properties nonzero same previous fields next compatibility in
      if str_eq key "properties" then new_properties previous end next compatibility else rest
  compare_properties nonzero same previous (field key (boolean b) fields) next compatibility =
      let rest = compare_properties nonzero same previous fields next compatibility in
      if str_eq key "properties" then new_properties previous end next compatibility else rest
  compare_properties nonzero same previous (field key (number n) fields) next compatibility =
      let rest = compare_properties nonzero same previous fields next compatibility in
      if str_eq key "properties" then new_properties previous end next compatibility else rest
  compare_properties nonzero same previous (field key (text t) fields) next compatibility =
      let rest = compare_properties nonzero same previous fields next compatibility in
      if str_eq key "properties" then new_properties previous end next compatibility else rest
  compare_properties nonzero same previous (field key (array items) fields) next compatibility =
      let rest = compare_properties nonzero same previous fields next compatibility in
      if str_eq key "properties" then new_properties previous end next compatibility else rest
  compare_properties nonzero same previous (field key (object properties) fields) next
        compatibility =
      let rest = compare_properties nonzero same previous fields next compatibility in
      let inside =
        each_property nonzero same properties (properties_of next) (required_of previous)
          (required_of next) compatibility in
      if str_eq key "properties" then new_properties previous properties next inside else rest

  pub each_property :
      {Number : Type 0}
      → (Number → Bool)
      → (Json Number → Json Number → Bool)
      → Fields Number
      → Fields Number
      → Items Number
      → Items Number
      → Compatibility
      → Compatibility
  each_property nonzero same end next before after compatibility = compatibility
  each_property nonzero same (field key value properties) next before after compatibility =
      elim (property key next) [
        | none ↦ breaking
        | some schema ↦ each_property nonzero same properties next before after (
            merge_required (has_text key before) (has_text key after) (
              merge_workflow_compatibility compatibility
                (compare_values nonzero same value schema)))
      ]

  -- The items of the previous schema, whose fields are gone through for `items`.
  pub compare_items :
      {Number : Type 0}
      → (Number → Bool)
      → (Json Number → Json Number → Bool)
      → Fields Number
      → Fields Number
      → Compatibility
  compare_items nonzero same end next =
      if is_defined (property "items" next) then breaking else identical
  compare_items nonzero same (field key value fields) next =
      let rest = compare_items nonzero same fields next in
      let here : Compatibility = elim (property "items" next) [
        | none ↦ breaking
        | some schema ↦ compare_values nonzero same value schema
      ] in
      if str_eq key "items" then here else rest
