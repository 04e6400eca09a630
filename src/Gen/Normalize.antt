-- ===== src/Gen/Normalize.antt =====
-- internal/gen/manifest.go: the shorthands of field types, expanded in the whole declaration.
pub mod Plain
use sokel_plugin_sdk.Base.{Text, codes, same, Option, none, some, List, map, if◌then◌else◌}
use sokel_plugin_sdk.Gen.Field.{
  IrAttributes, IrVariantHead, IrField, IrFields, IrVariants, IrValueType, ir_field, no_ir_fields,
  and_ir_field, no_ir_variants, and_ir_variant, no_ir_value_type, ir_value_type,
}
use sokel_plugin_sdk.Gen.Declaration.{
  Manifest, OperationDecl, CapabilityDecl, EventDecl, CredentialDecl,
}

-- The switch on the type.
unfoldable pub expand : IrAttributes → IrAttributes
expand a =
    if same a.type_name (codes "int")
    then record a { type_name = codes "number"; go_type = codes "int" }
    else if same a.type_name (codes "files")
    then record a { type_name = codes "array"; item_type = codes "file" }
    else if same a.type_name (codes "ints")
    then record a { type_name = codes "array"; item_type = codes "number"; go_type = codes "int" }
    else if same a.type_name (codes "strings")
    then record a { type_name = codes "array"; item_type = codes "string" }
    else a

unfoldable mutual
  unfolding expand

  -- `normalizeOne`, and the body of the loop of `normalizeFields`
  pub normalize_one : IrField → IrField
  normalize_one (ir_field a fs vs vt) =
      ir_field (expand a) (normalize_fields fs) (normalize_variants vs) (normalize_value_type vt)

  pub normalize_fields : IrFields → IrFields
  normalize_fields no_ir_fields = no_ir_fields
  normalize_fields (and_ir_field f fs) = and_ir_field (normalize_one f) (normalize_fields fs)

  pub normalize_variants : IrVariants → IrVariants
  normalize_variants no_ir_variants = no_ir_variants
  normalize_variants (and_ir_variant h fs vs) =
      and_ir_variant h (normalize_fields fs) (normalize_variants vs)

  pub normalize_value_type : IrValueType → IrValueType
  normalize_value_type no_ir_value_type = no_ir_value_type
  normalize_value_type (ir_value_type f) = ir_value_type (normalize_one f)

unfoldable pub normalize_operation : OperationDecl → OperationDecl
unfolding normalize_fields
normalize_operation op = record op {
  inputs = normalize_fields op.inputs;
  outputs = normalize_fields op.outputs;
}

unfoldable pub normalize_capability : CapabilityDecl → CapabilityDecl
unfolding normalize_operation
normalize_capability c = record c { operations = map normalize_operation c.operations }

unfoldable pub normalize_event : EventDecl → EventDecl
unfolding normalize_fields
normalize_event e = record e { fields = normalize_fields e.fields }

unfoldable pub normalize_credential : Option CredentialDecl → Option CredentialDecl
unfolding normalize_fields
normalize_credential none = none
normalize_credential (some c) = some (record c { fields = normalize_fields c.fields })

unfoldable pub normalize_sugar : Manifest → Manifest
unfolding normalize_operation normalize_capability normalize_event normalize_credential
normalize_sugar m = record m {
  operations = map normalize_operation m.operations;
  implements = map normalize_capability m.implements;
  events = map normalize_event m.events;
  credential = normalize_credential m.credential;
}
