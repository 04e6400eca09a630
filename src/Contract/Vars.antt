-- ===== src/Contract/Vars.antt =====
-- `StructToVars` of contract/contract.go: from a value of Go to the variables of a frame.
pub mod Keys
use sokel_plugin_sdk.Base.{
  ℕ, Text, Bool, true, false, not, ◌||◌, Map, put, Option, none, some, List, [], ◌∷◌, if◌then◌else◌,
}
use sokel_plugin_sdk.Contract.Field.{
  Value, null, bool, num, str, arr, obj, Values, nil, cons, Members, end, member,
}
use sokel_plugin_sdk.Contract.Tags.{parse_sokel_tag}
use sokel_plugin_sdk.Contract.GoTypes.{
  GoType, StructField, Package, pointer, interface_type, struct_type,
}

-- A `reflect.Value`, with its type where the constructor does not tell it.
mutual
  pub data GoValue : Type 0 where
    -- A nil pointer, by the type of its element
    nil_pointer : GoType → GoValue
    points_to : GoType → GoValue → GoValue
    nil_interface : GoValue
    struct_value : ℕ → FieldValues → GoValue
    -- A slice or an array
    list_value : GoType → GoValues → GoValue
    -- A value of another type, by its JSON
    other_value : GoType → Value → GoValue

  pub data GoValues : Type 0 where
    no_more : GoValues
    and_then : GoValue → GoValues → GoValues

  -- The fields of a struct, in the order of their declaration
  pub data FieldValues : Type 0 where
    no_field_values : FieldValues
    field_value : StructField → GoValue → FieldValues → FieldValues

-- `v.Type()`
abbrev go_type_of : GoValue → GoType
go_type_of (nil_pointer t) = pointer t
go_type_of (points_to t v) = pointer t
go_type_of nil_interface = interface_type
go_type_of (struct_value i fvs) = struct_type i
go_type_of (list_value t vs) = t
go_type_of (other_value t x) = t

-- `(fv.Kind() == reflect.Pointer || fv.Kind() == reflect.Interface) && fv.IsNil()`
abbrev pub is_nil_value : GoValue → Bool
is_nil_value (nil_pointer t) = true
is_nil_value (points_to t v) = false
is_nil_value nil_interface = true
is_nil_value (struct_value i fvs) = false
is_nil_value (list_value t vs) = false
is_nil_value (other_value t x) = false

-- A map of Go as a JSON object
abbrev pub members : Map Value → Members
members [] = end
members ((k, x) ∷ m) = member k x (members m)

-- The body of the loop over the fields, once the value of the field is known.
abbrev pub put_field : StructField → GoValue → Value → Map Value → Map Value
put_field sf v x m =
    if not sf.exported || is_nil_value v then m else put (parse_sokel_tag sf.name sf.tags).0 x m

-- `handed_on` is the JSON of `v.Interface()`, by package encoding/json.
unfoldable mutual
  unfolding parse_sokel_tag

  -- `sokelValue`
  pub sokel_value : (GoValue → Value) → Package → GoValue → Value
  sokel_value handed_on p (nil_pointer t) =
      if p.is_file_ref (pointer t) then handed_on (nil_pointer t) else null
  sokel_value handed_on p (points_to t v) =
      let inner = sokel_value handed_on p v in
      if p.is_file_ref (pointer t) then handed_on (points_to t v) else inner
  sokel_value handed_on p nil_interface = handed_on nil_interface
  sokel_value handed_on p (struct_value i fvs) =
      let m = struct_fields_to_map handed_on p fvs [] in
      if p.is_file_ref (struct_type i) then handed_on (struct_value i fvs) else obj (members m)
  sokel_value handed_on p (list_value t vs) =
      let out = sokel_values handed_on p vs in
      if p.is_file_ref t then handed_on (list_value t vs) else arr out
  sokel_value handed_on p (other_value t x) = handed_on (other_value t x)

  pub sokel_values : (GoValue → Value) → Package → GoValues → Values
  sokel_values handed_on p no_more = nil
  sokel_values handed_on p (and_then v vs) =
      cons (sokel_value handed_on p v) (sokel_values handed_on p vs)

  -- The loop of `structFieldsToMap`
  pub struct_fields_to_map : (GoValue → Value) → Package → FieldValues → Map Value → Map Value
  struct_fields_to_map handed_on p no_field_values m = m
  struct_fields_to_map handed_on p (field_value sf v fvs) m =
      struct_fields_to_map handed_on p fvs (put_field sf v (sokel_value handed_on p v) m)

-- `structToVars`, without a map where it returns nil
unfoldable pub struct_to_vars : (GoValue → Value) → Package → GoValue → Option (Map Value)
unfolding struct_fields_to_map
struct_to_vars handed_on p (nil_pointer t) = none
struct_to_vars handed_on p (points_to t v) = struct_to_vars handed_on p v
struct_to_vars handed_on p nil_interface = none
struct_to_vars handed_on p (struct_value i fvs) = some (struct_fields_to_map handed_on p fvs [])
struct_to_vars handed_on p (list_value t vs) = none
struct_to_vars handed_on p (other_value t x) = none
