-- ===== src/Contract/GoTypes.antt =====
-- Package reflect, as contract/contract.go reads the type of an input or output.
use sokel_plugin_sdk.Base.{ℕ, Text, Bool, Map, List}

-- A type; structs and other named types are known by a number, which is their identity. The name of
-- a kind of integers or floats is `Kind().String()`.
pub data GoType : Type 0 where
  bool_type : GoType
  int_type : Text → GoType
  float_type : Text → GoType
  string_type : GoType
  interface_type : GoType
  pointer : GoType → GoType
  slice : GoType → GoType
  array_type : GoType → GoType
  map_type : GoType → GoType → GoType
  struct_type : ℕ → GoType
  -- A defined type that is no struct and no pointer
  defined : ℕ → GoType
  -- A channel, a function, a complex number
  other_type : GoType

pub record StructField : Type 0 where
  pub name : Text
  pub exported : Bool
  pub tags : Map Text
  pub go_type : GoType

-- The declarations of the plugin's package: the fields of a struct, the type that a defined type is
-- declared with, and `isFileRef`, which asks for the methods of a type.
pub record Package : Type 0 where
  pub struct_fields : ℕ → List StructField
  pub underlying : ℕ → GoType
  pub is_file_ref : GoType → Bool

-- `for t.Kind() == reflect.Pointer { t = t.Elem() }`
unfoldable pub strip : GoType → GoType
strip bool_type = bool_type
strip (int_type k) = int_type k
strip (float_type k) = float_type k
strip string_type = string_type
strip interface_type = interface_type
strip (pointer t) = strip t
strip (slice t) = slice t
strip (array_type t) = array_type t
strip (map_type k t) = map_type k t
strip (struct_type i) = struct_type i
strip (defined i) = defined i
strip other_type = other_type

-- The type behind a name: what `Kind` and `Elem` see.
unfoldable pub kind_of : Package → GoType → GoType
kind_of p bool_type = bool_type
kind_of p (int_type k) = int_type k
kind_of p (float_type k) = float_type k
kind_of p string_type = string_type
kind_of p interface_type = interface_type
kind_of p (pointer t) = pointer t
kind_of p (slice t) = slice t
kind_of p (array_type t) = array_type t
kind_of p (map_type k t) = map_type k t
kind_of p (struct_type i) = struct_type i
kind_of p (defined i) = p.underlying i
kind_of p other_type = other_type
