-- ===== src/Contract/Defaults/Agreement.antt =====
-- `applyDefaultTag` and `deriveFieldsSeen` of contract/contract.go: the default on the two sides.
use sokel_plugin_sdk.Base.{
  ℕ, Text, same, Map, ap, sym, ◌∙◌, ◌⊎◌, ◌≢◌, inl, inr, Option-cases, codes, Bool, true, false,
  lookup, Option, none, some, List, ◌≡◌, refl, arith,
}
use sokel_plugin_sdk.Contract.Field.{
  Attributes, null, ParamType, Value, attributes, t_bool, t_number, t_string,
}
use sokel_plugin_sdk.Contract.Tags.{coerce_default}
use sokel_plugin_sdk.Contract.GoTypes.{
  GoType, StructField, Package, kind_of, bool_type, int_type, float_type, string_type,
  interface_type, pointer, slice, array_type, map_type, struct_type, defined, other_type,
}
use sokel_plugin_sdk.Contract.Derive.{
  Derived, plain_type, tag_text, derived_field, by_kind, demand_of, structure_of, derived_base,
  type_tag, enum_tag,
}
use sokel_plugin_sdk.Contract.Defaults.{Numbers, is_signed, set_default, apply_default_tag}

-- The kinds whose default is set to what the contract says, and what this asks of a number.
abbrev IsSettled : (Text → Option Text) → Numbers → Text → GoType → Type 0
IsSettled parse_float ns dv bool_type = Unit
IsSettled parse_float ns dv (int_type k) =
    (is_signed k ≡ true) × (parse_float dv ≡ some (ns.int_of k dv))
IsSettled parse_float ns dv (float_type k) = parse_float dv ≡ some (ns.float_of k dv)
IsSettled parse_float ns dv string_type = Unit
IsSettled parse_float ns dv interface_type = ⊥
IsSettled parse_float ns dv (pointer t) = ⊥
IsSettled parse_float ns dv (slice t) = ⊥
IsSettled parse_float ns dv (array_type t) = ⊥
IsSettled parse_float ns dv (map_type k t) = ⊥
IsSettled parse_float ns dv (struct_type i) = ⊥
IsSettled parse_float ns dv (defined i) = ⊥
IsSettled parse_float ns dv other_type = ⊥

set_default-coerce_default :
    (parse_float : Text → Option Text) (ns : Numbers) (p : Package)
    (rec : List ℕ → GoType → Option Derived) (seen : List ℕ) (k : GoType) (dv : Text) (d : Derived)
    (v : Value)
    → IsSettled parse_float ns dv k
    → by_kind parse_float p rec seen k ≡ some d
    → set_default ns k dv v ≡ coerce_default parse_float dv d.param_type
unfolding set_default coerce_default by_kind same
set_default-coerce_default parse_float ns p rec seen bool_type dv d v h e =
    let q : plain_type t_bool ≡ d = ground arith in rw (← q) (refl)
set_default-coerce_default parse_float ns p rec seen (int_type k) dv d v (s, h) e =
    let q : plain_type t_number ≡ d = ground arith in rw (← q) (rw (s, h) refl)
set_default-coerce_default parse_float ns p rec seen (float_type k) dv d v h e =
    let q : plain_type t_number ≡ d = ground arith in rw (← q) (rw h refl)
set_default-coerce_default parse_float ns p rec seen string_type dv d v h e =
    let q : plain_type t_string ≡ d = ground arith in rw (← q) (refl)
set_default-coerce_default parse_float ns p rec seen interface_type dv d v h e = absurd h
set_default-coerce_default parse_float ns p rec seen (pointer t) dv d v h e = absurd h
set_default-coerce_default parse_float ns p rec seen (slice t) dv d v h e = absurd h
set_default-coerce_default parse_float ns p rec seen (array_type t) dv d v h e = absurd h
set_default-coerce_default parse_float ns p rec seen (map_type k t) dv d v h e = absurd h
set_default-coerce_default parse_float ns p rec seen (struct_type i) dv d v h e = absurd h
set_default-coerce_default parse_float ns p rec seen (defined i) dv d v h e = absurd h
set_default-coerce_default parse_float ns p rec seen other_type dv d v h e = absurd h

type_tag-untagged :
    (tags : Map Text) (a : Attributes) → lookup (codes "type") tags ≡ none → type_tag tags a ≡ a
unfolding type_tag tag_text
type_tag-untagged tags a e = rw (type_tag, tag_text, e) refl

enum_tag-untagged :
    (tags : Map Text) (a : Attributes) → lookup (codes "enum") tags ≡ none → enum_tag tags a ≡ a
unfolding enum_tag tag_text
enum_tag-untagged tags a e = rw (enum_tag, tag_text, e) refl

demand_of-default :
    (parse_float : Text → Option Text) (sf : StructField) (optional : Bool) (a : Attributes)
    (dv : Text)
    → lookup (codes "default") sf.tags ≡ some dv
    → (demand_of parse_float sf optional a).default ≡ coerce_default parse_float dv a.param_type
unfolding demand_of
demand_of-default parse_float sf optional a dv e = rw (demand_of, e) refl

apply_at :
    (ns : Numbers) (p : Package) (sf : StructField) (dv : Text) (v : Value)
    → lookup (codes "default") sf.tags ≡ some dv
    → sf.exported ≡ true
    → apply_default_tag ns p sf v ≡ set_default ns (kind_of p sf.go_type) dv v
unfolding apply_default_tag
apply_at ns p sf dv v tagged ex = rw (apply_default_tag, tagged, ex) refl

coerce_default-told :
    (parse_float : Text → Option Text) (dv : Text) (t : ParamType)
    → coerce_default parse_float dv t ≢ null
unfolding coerce_default
coerce_default-told parse_float dv t e = elim (Option-cases (parse_float dv)) [
  | inl none_read ↦ ground arith
  | inr (x, read) ↦ ground arith
]

set_default-unset :
    (ns : Numbers) (k : GoType) (dv : Text) (v : Value)
    → ((name : Text) × ((k ≡ int_type name) × (is_signed name ≡ false)))
      ⊎ ((t : GoType) × (k ≡ pointer t))
    → set_default ns k dv v ≡ v
unfolding set_default
set_default-unset ns k dv v (inl (name, (is, unsigned))) = rw (is, unsigned) refl
set_default-unset ns k dv v (inr (t, is)) = rw is refl

module _ (parse_float : Text → Option Text) (p : Package) (sf : StructField) (name : Text)
    (optional : Bool) (d : Derived) (dv : Text) (no_type : lookup (codes "type") sf.tags ≡ none)
    (no_enum : lookup (codes "enum") sf.tags ≡ none)
    (tagged : lookup (codes "default") sf.tags ≡ some dv) where
  -- The default of the contract, for a field without a tag for its type
  derived_field-default :
      (attributes (derived_field parse_float p sf name optional d)).default
      ≡ coerce_default parse_float dv d.param_type
  unfolding derived_field structure_of derived_base
  derived_field-default =
      let base = derived_base p sf name d in
      let same_type : (enum_tag sf.tags (type_tag sf.tags base)).param_type ≡ d.param_type =
        ap (λ a. a.param_type)
          (enum_tag-untagged sf.tags (type_tag sf.tags base) no_enum
            ∙ type_tag-untagged sf.tags base no_type) in
      demand_of-default parse_float sf optional
        (structure_of p sf d (enum_tag sf.tags (type_tag sf.tags base))) dv tagged
      ∙ ap (coerce_default parse_float dv) same_type

  -- An exported field with a default tag, without a type tag and without an enum tag, is set to the
  -- default that the field derived from it tells, if it is a Boolean or a string, or a signed integer
  -- or a float whose tag the contract reads as the number that the field gets, after its conversion
  -- to the width of the field.
  pub apply_default_tag-derived_field :
      (ns : Numbers) (rec : List ℕ → GoType → Option Derived) (seen : List ℕ) (v : Value)
      → sf.exported ≡ true
      → IsSettled parse_float ns dv (kind_of p sf.go_type)
      → by_kind parse_float p rec seen (kind_of p sf.go_type) ≡ some d
      → apply_default_tag ns p sf v
        ≡ (attributes (derived_field parse_float p sf name optional d)).default
  unfolding apply_default_tag
  apply_default_tag-derived_field ns rec seen v ex h e =
      apply_at ns p sf dv v tagged ex
      ∙ ((set_default-coerce_default parse_float ns p rec seen (kind_of p sf.go_type) dv d v h e
          ∙ sym derived_field-default))

  -- A default on an exported field of an unsigned integer type or of a pointer type, without a type
  -- tag and without an enum tag, is told by the derived field and never set.
  apply_default_tag_unset :
      (ns : Numbers) (v : Value)
      → sf.exported ≡ true
      → ((k : Text) × ((kind_of p sf.go_type ≡ int_type k) × (is_signed k ≡ false)))
        ⊎ ((t : GoType) × (kind_of p sf.go_type ≡ pointer t))
      → (apply_default_tag ns p sf v ≡ v)
        × ((attributes (derived_field parse_float p sf name optional d)).default ≢ null)
  apply_default_tag_unset ns v ex h = (
    apply_at ns p sf dv v tagged ex ∙ set_default-unset ns (kind_of p sf.go_type) dv v h,
    λ e. coerce_default-told parse_float dv d.param_type (sym derived_field-default ∙ e),
  )
