-- ===== src/Gen/Check/Sound.antt =====
-- `validateFields` of internal/gen/manifest.go.
use sokel_plugin_sdk.Base.{
  Text, codes, same, true, false, List, [], ◌∷◌, ◌++◌, is_empty, All, IsDistinct, map, ◌≡◌, ◌≢◌,
  ◌↔◌, refl, arith,
}
use sokel_plugin_sdk.Gen.Field.{
  IrField, IrFields, IrVariants, IrValueType, ir_field, no_ir_fields, and_ir_field, no_ir_variants,
  and_ir_variant, no_ir_value_type, ir_value_type, ir_attributes, field_list,
}
use sokel_plugin_sdk.Gen.Patterns.{is_field_id}
use sokel_plugin_sdk.Gen.Check.Own.{IsSoundOwn, own_problems_iff, head_problems_iff}
use sokel_plugin_sdk.Gen.Fresh.{IsFresh, IsFresh-step, IsFresh-start}
use sokel_plugin_sdk.Gen.Report.{report_both, report_or}
use sokel_plugin_sdk.Gen.Check.{
  has_key, is_wire_type, name_problems, validate_names, validate_field, validate_list,
  validate_variants, validate_value_type, validate_fields,
}

abbrev pub names : IrFields → List Text
names fs = map (λ f. (ir_attributes f).name) (field_list fs)

-- The names are identifiers, no two alike.
abbrev HasNames : IrFields → Type 0
HasNames fs = All (λ n. is_field_id n ≡ true) (names fs) × IsDistinct (names fs)

abbrev mutual
  pub IsSoundField : IrField → Type 0
  IsSoundField (ir_field a fs vs vt) =
      IsSoundOwn a fs vt
      × (IsSoundVariants vs × ((HasNames fs × IsSoundEach fs) × IsSoundValueType vt))

  pub IsSoundEach : IrFields → Type 0
  IsSoundEach no_ir_fields = Unit
  IsSoundEach (and_ir_field f fs) = IsSoundField f × IsSoundEach fs

  pub IsSoundVariants : IrVariants → Type 0
  IsSoundVariants no_ir_variants = Unit
  IsSoundVariants (and_ir_variant h fs vs) =
      ((h.name ≢ []) × (h.type_name ≢ [])) × ((HasNames fs × IsSoundEach fs) × IsSoundVariants vs)

  pub IsSoundValueType : IrValueType → Type 0
  IsSoundValueType no_ir_value_type = Unit
  IsSoundValueType (ir_value_type f) = IsSoundField f

-- The fields that the platform can use, at every depth.
abbrev pub IsSound : IrFields → Type 0
IsSound fs = HasNames fs × IsSoundEach fs

name_problems_iff :
    (place : Text) (seen : List Text) (n : Text)
    → (name_problems place seen n ≡ []) ↔ ((is_field_id n ≡ true) × (has_key seen n ≡ false))
unfolding name_problems is_field_id
name_problems_iff place seen [] = (λ h. absurd (ground arith), λ h. absurd (ground arith))
name_problems_iff place seen (c ∷ n) = ground arith

names_iff :
    (place : Text) (seen : List Text) (fs : IrFields)
    → (validate_names place seen fs ≡ []) ↔ IsFresh is_field_id seen (names fs)
unfolding validate_names
names_iff place seen no_ir_fields = (λ h. (tt, (tt, tt)), λ h. refl)
names_iff place seen (and_ir_field f fs) =
    let n = (ir_attributes f).name in
    let both = report_both (name_problems_iff place seen n) (names_iff place (n ∷ seen) fs) in
    let step = IsFresh-step is_field_id seen n (names fs) in
    (λ h. step.0 (both.0 h), λ h. both.1 (step.1 h))

-- The check of names alone, which credentials use, finds nothing exactly if every name is an
-- identifier and no two are the same.
validate_names_iff :
    (place : Text) (fs : IrFields) → (validate_names place [] fs ≡ []) ↔ HasNames fs
validate_names_iff place fs =
    let h = names_iff place [] fs in
    let k = IsFresh-start is_field_id (names fs) in (λ e. k.0 (h.0 e), λ s. h.1 (k.1 s))

unnamed_type : (t : Text) → is_empty t ≡ true → ¬ (is_wire_type t ≡ true)
unfolding is_wire_type has_key same
unnamed_type [] e = λ w. absurd (ground arith)
unnamed_type (c ∷ t) e = absurd (ground arith)

-- A list of fields that is checked from the start.
from_start :
    (fs : IrFields) {X P : Type 0}
    → (X ↔ (IsFresh is_field_id [] (names fs) × P))
    → X ↔ (HasNames fs × P)
from_start fs h =
    let k = IsFresh-start is_field_id (names fs) in
    (λ e. let (fresh, each) = h.0 e in (k.0 fresh, each), λ (n, each). h.1 (k.1 n, each))

mutual
  unfolding validate_field

  field_iff : (place : Text) (f : IrField) → (validate_field place f ≡ []) ↔ IsSoundField f
  field_iff place (ir_field a fs vs vt) =
      report_or _ _ _ (λ e. λ s. unnamed_type a.type_name e s.0.0)
        (report_both (own_problems_iff place a fs vt) (
          report_both (variants_iff place vs)
            (report_both (from_start fs (list_iff place [] fs)) (value_type_iff place vt))))

  list_iff :
      (place : Text) (seen : List Text) (fs : IrFields)
      → (validate_list place seen fs ≡ []) ↔ (IsFresh is_field_id seen (names fs) × IsSoundEach fs)
  list_iff place seen no_ir_fields = (λ h. ((tt, (tt, tt)), tt), λ h. refl)
  list_iff place seen (and_ir_field f fs) =
      let n = (ir_attributes f).name in
      let both =
        report_both (name_problems_iff place seen n)
          (report_both (field_iff (place ++ (b'.' ∷ n)) f) (list_iff place (n ∷ seen) fs)) in
      let step = IsFresh-step is_field_id seen n (names fs) in
      (
        λ e. let (named, (here, (fresh, each))) = both.0 e in (step.0 (named, fresh), (here, each)),
        λ (all_fresh, (here, each)).
            let (named, fresh) = step.1 all_fresh in both.1 (named, (here, (fresh, each))),
      )

  variants_iff :
      (place : Text) (vs : IrVariants) → (validate_variants place vs ≡ []) ↔ IsSoundVariants vs
  variants_iff place no_ir_variants = (λ h. tt, λ h. refl)
  variants_iff place (and_ir_variant h fs vs) = report_both (head_problems_iff place h) (
      report_both (from_start fs (list_iff (place ++ (codes ".oneOf." ++ h.name)) [] fs))
        (variants_iff place vs))

  value_type_iff :
      (place : Text) (vt : IrValueType) → (validate_value_type place vt ≡ []) ↔ IsSoundValueType vt
  value_type_iff place no_ir_value_type = (λ h. tt, λ h. refl)
  value_type_iff place (ir_value_type f) = field_iff (place ++ codes ".valueType") f

-- The validation of fields reports nothing exactly if, at every depth: the names in a list are distinct
-- identifiers; the type and the types of a union are known; an enum and nothing else has options;
-- there are no fields beside a value type; a json object or array whose Go type names a structure
-- has fields or a value type or is marked opaque; what is marked opaque is a json object or array
-- with a description and without fields and value type; and a branch of oneOf has a name and a type.
pub validate_fields_iff :
    (place : Text) (fs : IrFields) → (validate_fields place fs ≡ []) ↔ IsSound fs
unfolding validate_fields
validate_fields_iff place fs = from_start fs (list_iff place [] fs)
