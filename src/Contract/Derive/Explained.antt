-- ===== src/Contract/Derive/Explained.antt =====
-- `deriveFieldsSeen` of contract/contract.go: which fields are marked opaque.
use sokel_plugin_sdk.Base.{
  Text, same, same_iff, Bool, true, false, Option, ◌≡◌, ◌≢◌, ◌⊎◌, refl, arith, Bool-cases, inl, inr,
}
use sokel_plugin_sdk.Contract.Field.{
  Field, Fields, ValueType, Attributes, field, no_fields, and_field, no_value_type, value_type,
  attributes, type_of, t_json, t_array,
}
use sokel_plugin_sdk.Contract.GoTypes.{StructField, Package}
use sokel_plugin_sdk.Contract.Derive.{
  Derived, is_no_field, is_no_value, derived_field, demand_of, structure_of, type_tag, enum_tag,
  derived_base,
}

abbrev sub_fields : Field → Fields
sub_fields (field a fs vs vt) = fs

abbrev value_type_of : Field → ValueType
value_type_of (field a fs vs vt) = vt

is_no_field_iff : (fs : Fields) → is_no_field fs ≡ false → fs ≢ no_fields
is_no_field_iff no_fields h = absurd (ground arith)
is_no_field_iff (and_field f fs) h = λ e. cc

is_no_value_iff : (vt : ValueType) → is_no_value vt ≡ false → vt ≢ no_value_type
is_no_value_iff no_value_type h = absurd (ground arith)
is_no_value_iff (value_type f) h = λ e. cc

-- The field tells its structure, by its fields or by the type of its values, or is marked opaque.
abbrev pub IsExplained : Field → Type 0
IsExplained f =
    ((attributes f).opaque ≡ true)
    ⊎ ((sub_fields f ≢ no_fields) ⊎ (value_type_of f ≢ no_value_type))

not_array : (t : Text) → same t t_json ≡ true → same t t_array ≡ false
unfolding same
not_array t h = rw ((same_iff t t_json).0 h) refl

structure_of-opaque :
    (p : Package) (sf : StructField) (d : Derived) (a : Attributes)
    → same a.param_type t_json ≡ true
    → is_no_field d.fields ≡ true
    → is_no_value d.value_type ≡ true
    → (structure_of p sf d a).opaque ≡ true
unfolding structure_of
structure_of-opaque p sf d a json bare unvalued =
    let other = not_array a.param_type json in ground arith

-- Every derived field whose type is json in the end, after its tags, tells its structure or is
-- marked opaque.
pub derived_field-IsExplained :
    (parse_float : Text → Option Text) (p : Package) (sf : StructField) (name : Text)
    (optional : Bool) (d : Derived)
    → type_of (derived_field parse_float p sf name optional d) ≡ t_json
    → IsExplained (derived_field parse_float p sf name optional d)
unfolding derived_field demand_of structure_of
derived_field-IsExplained parse_float p sf name optional d json =
    let a = enum_tag sf.tags (type_tag sf.tags (derived_base p sf name d)) in
    elim (Bool-cases (is_no_field d.fields)) [
      | inr has ↦ inr (inl (is_no_field_iff d.fields has))
      | inl bare ↦ elim (Bool-cases (is_no_value d.value_type)) [
        | inr has ↦ inr (inr (is_no_value_iff d.value_type has))
        | inl unvalued ↦
            inl (structure_of-opaque p sf d a ((same_iff a.param_type t_json).1 json) bare unvalued)
      ]
    ]
