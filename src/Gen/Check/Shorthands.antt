-- ===== src/Gen/Check/Shorthands.antt =====
-- internal/gen/manifest.go: the shorthands of `normalizeFields` against the types of `validateField`.
use sokel_plugin_sdk.Base.{Text, codes, same, same_of_ne, true, false, [], ◌≡◌, refl, arith}
use sokel_plugin_sdk.Gen.Field.{
  IrField, IrFields, IrVariants, IrValueType, ir_field, no_ir_fields, and_ir_field, no_ir_variants,
  and_ir_variant, no_ir_value_type, ir_value_type,
}
use sokel_plugin_sdk.Gen.Normalize.{
  normalize_one, normalize_fields, normalize_variants, normalize_value_type,
}
use sokel_plugin_sdk.Gen.Normalize.Plain.{IsPlainType, expand_plain}
use sokel_plugin_sdk.Gen.Check.{has_key, is_wire_type, validate_fields}
use sokel_plugin_sdk.Gen.Check.Sound.{
  IsSoundField, IsSoundEach, IsSoundVariants, IsSoundValueType, validate_fields_iff,
}

other_type : (t s : Text) → is_wire_type s ≡ false → is_wire_type t ≡ true → same t s ≡ false
other_type t s no_wire wire =
    same_of_ne t s (λ e. let bad : is_wire_type s ≡ true = rw (← e) wire in absurd (ground arith))

is_wire_type-IsPlainType : (t : Text) → is_wire_type t ≡ true → IsPlainType t
unfolding is_wire_type has_key same
is_wire_type-IsPlainType t h = (
  other_type t (codes "int") refl h,
  other_type t (codes "files") refl h,
  other_type t (codes "ints") refl h,
  other_type t (codes "strings") refl h,
)

mutual
  unfolding normalize_one

  one_kept : (f : IrField) → IsSoundField f → normalize_one f ≡ f
  one_kept (ir_field a fs vs vt) (own, (branches, ((named, each), value))) = cc (
    expand_plain a (is_wire_type-IsPlainType a.type_name own.0),
    fields_kept fs each,
    variants_kept vs branches,
    value_type_kept vt value,
  )

  fields_kept : (fs : IrFields) → IsSoundEach fs → normalize_fields fs ≡ fs
  fields_kept no_ir_fields h = refl
  fields_kept (and_ir_field f fs) (here, each) = cc (one_kept f here, fields_kept fs each)

  variants_kept : (vs : IrVariants) → IsSoundVariants vs → normalize_variants vs ≡ vs
  variants_kept no_ir_variants h = refl
  variants_kept (and_ir_variant h fs vs) (head, ((named, each), rest)) =
      cc (fields_kept fs each, variants_kept vs rest)

  value_type_kept : (vt : IrValueType) → IsSoundValueType vt → normalize_value_type vt ≡ vt
  value_type_kept no_ir_value_type h = refl
  value_type_kept (ir_value_type f) h = cc (one_kept f h)

-- Fields in which the validation finds nothing hold no shorthand at any depth: the expansion of
-- the shorthands leaves them as they are.
validate_fields_plain :
    (place : Text) (fs : IrFields) → validate_fields place fs ≡ [] → normalize_fields fs ≡ fs
validate_fields_plain place fs h = fields_kept fs ((validate_fields_iff place fs).0 h).1
