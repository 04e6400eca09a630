-- ===== src/Gen/Field.antt =====
-- internal/gen/parse.go: the field of the generator's declaration of a plugin.
use sokel_plugin_sdk.Base.{Text, Bool, true, false, List, [], ◌∷◌}
use sokel_plugin_sdk.Contract.Field.{Value, Choice}

-- The members of `Field` that hold no field; `place` is `In`.
pub record IrAttributes : Type 0 where
  pub name : Text
  pub label : Text
  pub type_name : Text
  pub types : List Text
  pub required : Bool
  pub default : Value
  pub desc : Text
  pub placeholder : Text
  pub help : Text
  pub options : List Choice
  pub go_type : Text
  pub item_type : Text
  pub opaque : Bool
  pub place : Text
  pub param : Text
  pub from_path : Text

pub record IrVariantHead : Type 0 where
  pub name : Text
  pub label : Text
  pub type_name : Text
  pub go_type : Text

mutual
  -- The attributes, then `Fields`, `OneOf` and `ValueType`.
  pub data IrField : Type 0 where
    ir_field : IrAttributes → IrFields → IrVariants → IrValueType → IrField

  pub data IrFields : Type 0 where
    no_ir_fields : IrFields
    and_ir_field : IrField → IrFields → IrFields

  pub data IrVariants : Type 0 where
    no_ir_variants : IrVariants
    and_ir_variant : IrVariantHead → IrFields → IrVariants → IrVariants

  pub data IrValueType : Type 0 where
    no_ir_value_type : IrValueType
    ir_value_type : IrField → IrValueType

abbrev pub ir_attributes : IrField → IrAttributes
ir_attributes (ir_field a fs vs vt) = a

abbrev pub is_no_fields : IrFields → Bool
is_no_fields no_ir_fields = true
is_no_fields (and_ir_field f fs) = false

abbrev pub is_no_value_type : IrValueType → Bool
is_no_value_type no_ir_value_type = true
is_no_value_type (ir_value_type f) = false

-- The fields of a slice, in its order.
abbrev pub field_list : IrFields → List IrField
field_list no_ir_fields = []
field_list (and_ir_field f fs) = f ∷ field_list fs
