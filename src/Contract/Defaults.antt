-- ===== src/Contract/Defaults.antt =====
-- `applyDefaultTag` of contract/contract.go and `bindCredential` of sokel/credential.go.
pub mod Agreement
use sokel_plugin_sdk.Base.{
  Text, same, codes, Bool, true, false, not, ◌||◌, ◌&&◌, Map, lookup, Option, none, some, List, [],
  ◌∷◌, is_empty, if◌then◌else◌,
}
use sokel_plugin_sdk.Contract.Field.{Value, bool, num, str}
use sokel_plugin_sdk.Contract.Tags.{parse_sokel_tag, parse_bool}
use sokel_plugin_sdk.Contract.GoTypes.{
  GoType, StructField, Package, kind_of, bool_type, int_type, float_type, string_type,
  interface_type, pointer, slice, array_type, map_type, struct_type, defined, other_type,
}

-- What strconv returns besides an error: `ParseInt` converted to the integer type that the name
-- tells, as `SetInt` does, and `ParseFloat` rounded to the float type that the name tells, as
-- `SetFloat` does.
pub record Numbers : Type 0 where
  pub int_of : Text → Text → Text
  pub float_of : Text → Text → Text

-- reflect.Int to reflect.Int64
unfoldable pub is_signed : Text → Bool
is_signed k =
    same k (codes "int")
    || (same k (codes "int8")
        || (same k (codes "int16") || (same k (codes "int32") || same k (codes "int64"))))

-- The switch over the kind of the field
unfoldable pub set_default : Numbers → GoType → Text → Value → Value
unfolding parse_bool is_signed
set_default ns bool_type dv v = bool (parse_bool dv)
set_default ns (int_type k) dv v = if is_signed k then num (ns.int_of k dv) else v
set_default ns (float_type k) dv v = num (ns.float_of k dv)
set_default ns string_type dv v = str dv
set_default ns interface_type dv v = v
set_default ns (pointer t) dv v = v
set_default ns (slice t) dv v = v
set_default ns (array_type t) dv v = v
set_default ns (map_type k t) dv v = v
set_default ns (struct_type i) dv v = v
set_default ns (defined i) dv v = v
set_default ns other_type dv v = v

-- The value of the field afterwards; `fv.CanSet()` holds for the exported fields of a struct that is
-- reached by a pointer.
unfoldable pub apply_default_tag : Numbers → Package → StructField → Value → Value
unfolding set_default kind_of
apply_default_tag ns p sf v = elim (lookup (codes "default") sf.tags) [
  | none ↦ v
  | some dv ↦ if not sf.exported then v else set_default ns (kind_of p sf.go_type) dv v
]

abbrev is_string : GoType → Bool
is_string t = elim t [ string_type ↦ true | _ ↦ false ]

-- The body of the loop of `bindCredential`, once the name is known.
unfoldable bind_field : Numbers → Package → Map Text → StructField → Text → Value → Value
unfolding apply_default_tag
bind_field ns p cred sf name v = elim (lookup name cred) [
  | none ↦ apply_default_tag ns p sf v
  | some val ↦
      if is_empty val || not (is_string (kind_of p sf.go_type) && sf.exported)
      then apply_default_tag ns p sf v
      else str val
]

-- The fields of the struct with their values, after `bindCredential`
unfoldable pub bind_credential :
    Numbers → Package → Map Text → List (StructField × Value) → List (StructField × Value)
unfolding bind_field parse_sokel_tag
bind_credential ns p cred [] = []
bind_credential ns p cred ((sf, v) ∷ fvs) =
    let rest = bind_credential ns p cred fvs in
    let name = (parse_sokel_tag sf.name sf.tags).0 in
    if not sf.exported || same name (codes "-")
    then (sf, v) ∷ rest
    else (sf, bind_field ns p cred sf name v) ∷ rest
