-- ===== src/Contract/Derive.antt =====
-- contract/contract.go: the fields of a contract, derived from a Go type.
pub mod Ends
pub mod Explained
use sokel_plugin_sdk.Base.{
  ℕ, zero, suc, Text, codes, same, trim_space, Bool, true, false, not, ◌&&◌, ◌||◌, Option, none,
  some, List, [], ◌∷◌, is_empty, ◌==◌, Map, lookup, if◌then◌else◌,
}
use sokel_plugin_sdk.Contract.Field.{
  Value, null, ParamType, t_string, t_number, t_bool, t_file, t_json, t_array, t_enum, Choice,
  Attributes, Field, Fields, ValueType, field, no_fields, and_field, no_variants, no_value_type,
  value_type, blank,
}
use sokel_plugin_sdk.Contract.Tags.{
  parse_sokel_tag, tag_get, tag_types, tag_choices, coerce_default,
}
use sokel_plugin_sdk.Contract.GoTypes.{
  GoType, StructField, Package, strip, kind_of, bool_type, int_type, float_type, string_type,
  interface_type, pointer, slice, array_type, map_type, struct_type, defined, other_type,
}

-- The three results of `fieldTypeSeen`
pub record Derived : Type 0 where
  pub param_type : ParamType
  pub fields : Fields
  pub value_type : ValueType

abbrev pub is_no_field : Fields → Bool
is_no_field no_fields = true
is_no_field (and_field f fs) = false

abbrev pub is_no_value : ValueType → Bool
is_no_value no_value_type = true
is_no_value (value_type f) = false

abbrev is_null : Value → Bool
is_null v = elim v [ null ↦ true | _ ↦ false ]

abbrev is_interface : GoType → Bool
is_interface t = elim t [ interface_type ↦ true | _ ↦ false ]

abbrev is_string_kind : GoType → Bool
is_string_kind t = elim t [ string_type ↦ true | _ ↦ false ]

abbrev is_pointer : GoType → Bool
is_pointer t = elim t [ pointer u ↦ true | _ ↦ false ]

-- `elemScalarType`, of the element
unfoldable scalar_of : Package → GoType → ParamType
unfolding strip kind_of
scalar_of p el = if p.is_file_ref el then t_file else elim (kind_of p (strip el)) [
  | string_type ↦ t_string
  | bool_type ↦ t_bool
  | int_type k ↦ t_number
  | float_type k ↦ t_number
  | _ ↦ []
]

unfoldable elem_scalar_type : Package → GoType → ParamType
unfolding scalar_of strip kind_of
elem_scalar_type p t = elim (kind_of p (strip t)) [
  | slice el ↦ scalar_of p el
  | array_type el ↦ scalar_of p el
  | _ ↦ []
]

-- `elemHasNoStructure`, of the element
unfoldable is_unstructured : Package → GoType → Bool
unfolding strip kind_of
is_unstructured p el = not (p.is_file_ref el) && elim (kind_of p (strip el)) [
  | interface_type ↦ true
  | map_type k t ↦ is_interface (kind_of p t)
  | _ ↦ false
]

unfoldable elem_has_no_structure : Package → GoType → Bool
unfolding is_unstructured strip kind_of
elem_has_no_structure p t = elim (kind_of p (strip t)) [
  | slice el ↦ is_unstructured p el
  | array_type el ↦ is_unstructured p el
  | _ ↦ false
]

unfoldable int_kind_name : Package → GoType → Text
unfolding strip kind_of
int_kind_name p t = elim (kind_of p (strip t)) [ int_type k ↦ k | _ ↦ [] ]

-- `if x, ok := sf.Tag.Lookup(key); ok && strings.TrimSpace(x) != ""`
unfoldable pub tag_text : Text → Map Text → Option Text
tag_text key tags = elim (lookup key tags) [
  | none ↦ none
  | some x ↦ if is_empty (trim_space x) then none else some x
]

-- The field before its tags for the type.
unfoldable pub derived_base : Package → StructField → Text → Derived → Attributes
unfolding int_kind_name tag_text
derived_base p sf name d =
    let desc = tag_get (codes "desc") sf.tags in
    record blank {
      name = name;
      label = tag_get (codes "label") sf.tags;
      desc =
          (if is_empty desc
            then elim (tag_text (codes "opaque") sf.tags) [ none ↦ desc | some x ↦ trim_space x ]
            else desc);
      param_type = d.param_type;
      go_type = (if same d.param_type t_number then int_kind_name p sf.go_type else []);
    }

-- The `type` tag
abbrev pub with_types : List ParamType → Attributes → Attributes
with_types [] a = a
with_types (t ∷ []) a = record a { param_type = t }
with_types (t ∷ u ∷ ts) a = record a { param_type = t; types = t ∷ u ∷ ts }

unfoldable pub type_tag : Map Text → Attributes → Attributes
unfolding tag_text
type_tag tags a = elim (tag_text (codes "type") tags) [
  | none ↦ a
  | some x ↦ with_types (tag_types x) a
]

-- The `enum` tag
unfoldable pub enum_tag : Map Text → Attributes → Attributes
unfolding tag_text
enum_tag tags a = elim (tag_text (codes "enum") tags) [
  | none ↦ a
  | some x ↦ record a { param_type = t_enum; options = tag_choices x }
]

abbrev is_some : Option Text → Bool
is_some none = false
is_some (some x) = true

-- `ItemType` and `Opaque`, after the tags for the type.
unfoldable pub structure_of : Package → StructField → Derived → Attributes → Attributes
unfolding elem_scalar_type elem_has_no_structure tag_text
structure_of p sf d a =
    let item =
      if same a.param_type t_array && is_no_field d.fields
      then elem_scalar_type p sf.go_type
      else [] in
    record a {
      item_type = item;
      opaque =
          is_some (tag_text (codes "opaque") sf.tags)
          || ((same a.param_type t_json || same a.param_type t_array)
              && (is_no_field d.fields
                  && (is_no_value d.value_type
                      && (is_empty item
                          && (same a.param_type t_json || elem_has_no_structure p sf.go_type)))));
    }

-- `Default` and `Required`
unfoldable pub demand_of : (Text → Option Text) → StructField → Bool → Attributes → Attributes
demand_of parse_float sf optional a =
    let given : Value = elim (lookup (codes "default") sf.tags) [
      | none ↦ null
      | some dv ↦ coerce_default parse_float dv a.param_type
    ] in
    record a {
      default = given;
      required =
          not optional
          && (is_null given && (not (is_pointer sf.go_type) || same a.param_type t_file));
    }

-- The body of the loop over the struct's fields, after the type of the field is derived.
unfoldable pub derived_field :
    (Text → Option Text) → Package → StructField → Text → Bool → Derived → Field
unfolding derived_base type_tag enum_tag structure_of demand_of
derived_field parse_float p sf name optional d =
    let a = enum_tag sf.tags (type_tag sf.tags (derived_base p sf name d)) in
    field (demand_of parse_float sf optional (structure_of p sf d a)) d.fields no_variants
      d.value_type

abbrev pub then_some {ℓ} : {A B : Type ℓ} → Option A → (A → Option B) → Option B
then_some none next = none
then_some (some a) next = next a

-- The loop over the struct's fields; `rec` derives the type of a field.
unfoldable pub derive_each :
    (Text → Option Text) → Package → (GoType → Option Derived) → List StructField → Option Fields
unfolding parse_sokel_tag derived_field
derive_each parse_float p rec [] = some no_fields
derive_each parse_float p rec (sf ∷ sfs) =
    let rest = derive_each parse_float p rec sfs in
    let (name, optional) = parse_sokel_tag sf.name sf.tags in
    if not sf.exported || same name (codes "-")
    then rest
    else then_some (rec sf.go_type) (λ d.
      then_some rest (λ fs. some (and_field (derived_field parse_float p sf name optional d) fs)))

unfoldable pub is_seen : List ℕ → ℕ → Bool
is_seen [] i = false
is_seen (j ∷ js) i = j == i || is_seen js i

-- `deriveFieldsSeen` once the pointers are gone; `seen` are the structs on the path.
unfoldable pub derive_kind :
    (Text → Option Text)
    → Package
    → (List ℕ → GoType → Option Derived)
    → List ℕ
    → GoType
    → Option Fields
unfolding derive_each is_seen
derive_kind parse_float p rec seen k = elim k [
  | struct_type i ↦
      if is_seen seen i
      then some no_fields
      else derive_each parse_float p (rec (i ∷ seen)) (p.struct_fields i)
  | _ ↦ some no_fields
]

unfoldable pub derive_struct :
    (Text → Option Text)
    → Package
    → (List ℕ → GoType → Option Derived)
    → List ℕ
    → GoType
    → Option Fields
unfolding derive_kind strip kind_of
derive_struct parse_float p rec seen t = derive_kind parse_float p rec seen (kind_of p (strip t))

abbrev pub plain_type : ParamType → Derived
plain_type t = record { param_type = t; fields = no_fields; value_type = no_value_type }

abbrev pub with_fields : ParamType → Option Fields → Option Derived
with_fields t none = none
with_fields t (some fs) = some (record { param_type = t; fields = fs; value_type = no_value_type })

-- `&Field{Type: et, Fields: ef, ValueType: ev}`
abbrev pub map_of : Option Derived → Option Derived
map_of none = none
map_of (some d) = some (record {
  param_type = t_json;
  fields = no_fields;
  value_type =
      value_type
        (field (record blank { param_type = d.param_type }) d.fields no_variants d.value_type);
})

-- The `switch` on the kind.
unfoldable pub by_kind :
    (Text → Option Text)
    → Package
    → (List ℕ → GoType → Option Derived)
    → List ℕ
    → GoType
    → Option Derived
unfolding derive_struct kind_of
by_kind parse_float p rec seen bool_type = some (plain_type t_bool)
by_kind parse_float p rec seen (int_type k) = some (plain_type t_number)
by_kind parse_float p rec seen (float_type k) = some (plain_type t_number)
by_kind parse_float p rec seen string_type = some (plain_type t_string)
by_kind parse_float p rec seen interface_type = some (plain_type t_json)
by_kind parse_float p rec seen (pointer t) = some (plain_type t_string)
by_kind parse_float p rec seen (slice el) =
    if p.is_file_ref el
    then some (plain_type t_array)
    else with_fields t_array (derive_struct parse_float p rec seen el)
by_kind parse_float p rec seen (array_type el) =
    if p.is_file_ref el
    then some (plain_type t_array)
    else with_fields t_array (derive_struct parse_float p rec seen el)
by_kind parse_float p rec seen (map_type k el) =
    if not (is_string_kind (kind_of p k)) || is_interface (kind_of p el)
    then some (plain_type t_json)
    else map_of (rec seen el)
by_kind parse_float p rec seen (struct_type i) =
    with_fields t_json (derive_struct parse_float p rec seen (struct_type i))
by_kind parse_float p rec seen (defined i) = some (plain_type t_string)
by_kind parse_float p rec seen other_type = some (plain_type t_string)

-- `fieldTypeSeen`, on fuel for the depth of its calls
unfoldable pub field_type_seen :
    (Text → Option Text) → Package → ℕ → List ℕ → GoType → Option Derived
unfolding by_kind strip kind_of
field_type_seen parse_float p zero seen t = none
field_type_seen parse_float p (suc n) seen t =
    if p.is_file_ref t
    then some (plain_type t_file)
    else by_kind parse_float p (field_type_seen parse_float p n) seen (kind_of p (strip t))

-- `DeriveFields`
unfoldable pub derive_fields : (Text → Option Text) → Package → ℕ → GoType → Option Fields
unfolding derive_struct field_type_seen
derive_fields parse_float p n t = derive_struct parse_float p (field_type_seen parse_float p n) [] t
