-- ===== src/Contracts/Values.antt =====
-- The values of JSON, and `stableSerialize` (packages/runtime/index.ts). Numbers are a parameter of the
-- type. `before` is `localeCompare` and `stringify` is `JSON.stringify`.
use chimpbase.Prelude.{String, Bool, Option, none, some, str_eq, if◌then◌else◌}

mutual
  pub data Json (Number : Type 0) : Type 0 where
    null : Json Number
    boolean : Bool → Json Number
    number : Number → Json Number
    text : String → Json Number
    array : Items Number → Json Number
    object : Fields Number → Json Number

  pub data Items (Number : Type 0) : Type 0 where
    nil : Items Number
    item : Json Number → Items Number → Items Number

  pub data Fields (Number : Type 0) : Type 0 where
    end : Fields Number
    field : String → Json Number → Fields Number → Fields Number

module _ {Number : Type 0} where
  -- A property of an object; none is undefined.
  unfoldable pub property : String → Fields Number → Option (Json Number)
  property key end = none
  property key (field k value fields) = if str_eq k key then some value else property key fields

  unfoldable pub insert_field :
      (String → String → Bool) → String → Json Number → Fields Number → Fields Number
  insert_field before key value end = field key value end
  insert_field before key value (field k v fields) =
      let rest = insert_field before key value fields in
      if before k key then field k v rest else field key value (field k v fields)

unfoldable mutual
  unfolding insert_field

  pub sort_value : {Number : Type 0} → (String → String → Bool) → Json Number → Json Number
  sort_value before null = null
  sort_value before (boolean b) = boolean b
  sort_value before (number n) = number n
  sort_value before (text t) = text t
  sort_value before (array items) = array (sort_items before items)
  sort_value before (object fields) = object (sort_fields before fields)

  pub sort_items : {Number : Type 0} → (String → String → Bool) → Items Number → Items Number
  sort_items before nil = nil
  sort_items before (item value items) = item (sort_value before value) (sort_items before items)

  pub sort_fields : {Number : Type 0} → (String → String → Bool) → Fields Number → Fields Number
  sort_fields before end = end
  sort_fields before (field key value fields) =
      insert_field before key (sort_value before value) (sort_fields before fields)

unfoldable pub stable_serialize :
    {Number : Type 0} → (String → String → Bool) → (Json Number → String) → Json Number → String
unfolding sort_value
stable_serialize before stringify value = stringify (sort_value before value)
