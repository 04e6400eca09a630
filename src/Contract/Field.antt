-- ===== src/Contract/Field.antt =====
-- contract/contract.go: the field of an operation or event contract.
use sokel_plugin_sdk.Base.{Text, codes, Bool, false, List, []}

-- A Go value of type `any` that came from JSON; a number keeps its literal.
mutual
  pub data Value : Type 0 where
    null : Value
    bool : Bool → Value
    num : Text → Value
    str : Text → Value
    arr : Values → Value
    obj : Members → Value

  pub data Values : Type 0 where
    nil : Values
    cons : Value → Values → Values

  pub data Members : Type 0 where
    end : Members
    member : Text → Value → Members → Members

abbrev pub ParamType : Type 0
ParamType = Text

abbrev pub t_string : ParamType
t_string = codes "string"

abbrev pub t_number : ParamType
t_number = codes "number"

abbrev pub t_bool : ParamType
t_bool = codes "boolean"

abbrev pub t_file : ParamType
t_file = codes "file"

abbrev pub t_json : ParamType
t_json = codes "json"

abbrev pub t_array : ParamType
t_array = codes "array"

abbrev pub t_enum : ParamType
t_enum = codes "enum"

-- `Option` of the source, an enum candidate.
pub record Choice : Type 0 where
  pub value : Text
  pub label : Text

-- The members of `Field` that hold no field.
pub record Attributes : Type 0 where
  pub name : Text
  pub label : Text
  pub param_type : ParamType
  pub types : List ParamType
  pub required : Bool
  pub default : Value
  pub desc : Text
  pub options : List Choice
  pub placeholder : Text
  pub help : Text
  pub go_type : Text
  pub item_type : ParamType
  pub opaque : Bool

pub record VariantHead : Type 0 where
  pub name : Text
  pub label : Text
  pub param_type : ParamType
  pub go_type : Text

mutual
  -- The attributes, then `Fields`, `OneOf` and `ValueType`.
  pub data Field : Type 0 where
    field : Attributes → Fields → Variants → ValueType → Field

  pub data Fields : Type 0 where
    no_fields : Fields
    and_field : Field → Fields → Fields

  pub data Variants : Type 0 where
    no_variants : Variants
    and_variant : VariantHead → Fields → Variants → Variants

  pub data ValueType : Type 0 where
    no_value_type : ValueType
    value_type : Field → ValueType

abbrev pub attributes : Field → Attributes
attributes (field a fs vs vt) = a

abbrev pub name_of : Field → Text
name_of f = (attributes f).name

abbrev pub type_of : Field → ParamType
type_of f = (attributes f).param_type

abbrev pub blank : Attributes
blank = record {
  name = [];
  label = [];
  param_type = [];
  types = [];
  required = false;
  default = null;
  desc = [];
  options = [];
  placeholder = [];
  help = [];
  go_type = [];
  item_type = [];
  opaque = false;
}

-- A field with no sub-fields, branches or value type.
abbrev pub plain : Attributes → Field
plain a = field a no_fields no_variants no_value_type
