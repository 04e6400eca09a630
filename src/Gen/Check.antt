-- ===== src/Gen/Check.antt =====
-- internal/gen/manifest.go: the checks of the fields of a declaration.
mod Own
pub mod Sound
pub mod Shorthands
use sokel_plugin_sdk.Base.{
  Text, codes, same, trim_space, Bool, true, false, not, ◌&&◌, ◌||◌, List, [], ◌∷◌, ◌++◌, is_empty,
  if◌then◌else◌,
}
use sokel_plugin_sdk.Gen.Field.{
  IrAttributes, IrVariantHead, IrField, IrFields, IrVariants, IrValueType, ir_field, no_ir_fields,
  and_ir_field, no_ir_variants, and_ir_variant, no_ir_value_type, ir_value_type, ir_attributes,
  is_no_fields, is_no_value_type,
}
use sokel_plugin_sdk.Gen.Names.{is_int_go_type}
use sokel_plugin_sdk.Gen.Patterns.{is_field_id}
use sokel_plugin_sdk.Gen.Report.{report}
use sokel_plugin_sdk.Gen.Problem.{
  Problem, at, no_name, invalid_name, duplicate_name, no_type, unknown_type, unknown_union_type,
  enum_without_options, options_without_enum, fields_and_value_type, undefined_structure,
  opaque_scalar, opaque_without_reason, opaque_with_structure, branch_without_name,
  branch_without_type,
}

-- `m[k]` for a map to `bool` that holds the keys of the list.
unfoldable pub has_key : List Text → Text → Bool
has_key [] k = false
has_key (j ∷ js) k = same j k || has_key js k

-- The keys of `wireTypes`
abbrev wire_types : List Text
wire_types =
    codes "string"
    ∷ codes "text"
    ∷ codes "number"
    ∷ codes "boolean"
    ∷ codes "file"
    ∷ codes "json"
    ∷ codes "array"
    ∷ codes "enum"
    ∷ codes "secret"
    ∷ []

-- `wireTypes[t]`
unfoldable pub is_wire_type : Text → Bool
unfolding has_key
is_wire_type t = has_key wire_types t

-- The `switch` on the name of a field, with the names before it.
unfoldable pub name_problems : Text → List Text → Text → List Problem
unfolding has_key
name_problems place seen name =
    if is_empty name
    then at place no_name ∷ []
    else if not (is_field_id name)
    then at place (invalid_name name) ∷ []
    else if has_key seen name
    then at place (duplicate_name name) ∷ []
    else []

-- `validateFieldNames`, with the names before.
unfoldable pub validate_names : Text → List Text → IrFields → List Problem
unfolding name_problems
validate_names place seen no_ir_fields = []
validate_names place seen (and_ir_field f fs) =
    name_problems place seen (ir_attributes f).name
    ++ validate_names place ((ir_attributes f).name ∷ seen) fs

unfoldable pub union_problems : Text → List Text → List Problem
unfolding is_wire_type
union_problems place [] = []
union_problems place (t ∷ ts) =
    report (not (is_wire_type t)) (at place (unknown_union_type t)) ++ union_problems place ts

abbrev pub is_structured : Text → Bool
is_structured t = same t (codes "json") || same t (codes "array")

-- `goType` names a structure that nothing declares.
unfoldable pub is_undefined : IrAttributes → IrFields → IrValueType → Bool
unfolding is_int_go_type
is_undefined a fs vt =
    (not (is_empty a.go_type) && not (is_int_go_type a.go_type))
    && ((is_no_fields fs && is_no_value_type vt) && (not a.opaque && is_structured a.type_name))

unfoldable pub opaque_problems : Text → IrAttributes → IrFields → IrValueType → List Problem
opaque_problems place a fs vt =
    report (not (is_structured a.type_name)) (at place opaque_scalar)
    ++ (report (is_empty (trim_space a.desc)) (at place opaque_without_reason)
        ++ report (not (is_no_fields fs) || not (is_no_value_type vt))
            (at place opaque_with_structure))

-- `validateField` before it descends, for a field with a type.
unfoldable pub own_problems : Text → IrAttributes → IrFields → IrValueType → List Problem
unfolding is_wire_type union_problems is_undefined opaque_problems
own_problems place a fs vt =
    report (not (is_wire_type a.type_name)) (at place (unknown_type a.type_name))
    ++ (union_problems place a.types
        ++ (report (same a.type_name (codes "enum") && is_empty a.options)
              (at place enum_without_options)
            ++ (report (not (same a.type_name (codes "enum")) && not (is_empty a.options))
                  (at place options_without_enum)
                ++ (report (not (is_no_value_type vt) && not (is_no_fields fs))
                      (at place fields_and_value_type)
                    ++ (report (is_undefined a fs vt) (at place (undefined_structure a.go_type))
                        ++ (if a.opaque then opaque_problems place a fs vt else []))))))

unfoldable pub head_problems : Text → IrVariantHead → List Problem
head_problems place h =
    report (is_empty h.name) (at place branch_without_name)
    ++ report (is_empty h.type_name) (at place (branch_without_type h.name))

unfoldable mutual
  unfolding own_problems name_problems head_problems

  pub validate_field : Text → IrField → List Problem
  validate_field place (ir_field a fs vs vt) =
      let below =
        validate_variants place vs ++ (validate_list place [] fs ++ validate_value_type place vt) in
      if is_empty a.type_name then at place no_type ∷ [] else own_problems place a fs vt ++ below

  -- The loop of `validateFields`, with the names before.
  pub validate_list : Text → List Text → IrFields → List Problem
  validate_list place seen no_ir_fields = []
  validate_list place seen (and_ir_field f fs) =
      name_problems place seen (ir_attributes f).name
      ++ (validate_field (place ++ (b'.' ∷ (ir_attributes f).name)) f
          ++ validate_list place ((ir_attributes f).name ∷ seen) fs)

  pub validate_variants : Text → IrVariants → List Problem
  validate_variants place no_ir_variants = []
  validate_variants place (and_ir_variant h fs vs) =
      head_problems place h
      ++ (validate_list (place ++ (codes ".oneOf." ++ h.name)) [] fs ++ validate_variants place vs)

  pub validate_value_type : Text → IrValueType → List Problem
  validate_value_type place no_ir_value_type = []
  validate_value_type place (ir_value_type f) = validate_field (place ++ codes ".valueType") f

unfoldable pub validate_fields : Text → IrFields → List Problem
unfolding validate_list
validate_fields place fs = validate_list place [] fs
