-- ===== src/Gen/Check/Own.antt =====
-- `validateField` of internal/gen/manifest.go, at the field itself.
use sokel_plugin_sdk.Base.{
  Text, codes, same, same_iff, trim_space, true, false, not, ◌&&◌, List, [], ◌∷◌, is_empty, All,
  ◌≡◌, ◌≢◌, ◌↔◌, ◌⊎◌, inl, inr, refl, arith, Bool-cases,
}
use sokel_plugin_sdk.Contract.Field.{Choice}
use sokel_plugin_sdk.Gen.Field.{
  IrAttributes, IrVariantHead, IrFields, IrValueType, no_ir_fields, and_ir_field, no_ir_value_type,
  ir_value_type, is_no_fields, is_no_value_type,
}
use sokel_plugin_sdk.Gen.Names.{is_int_go_type}
use sokel_plugin_sdk.Gen.Report.{
  report-eq-nil, report_both, is_empty_iff, not-eq-false, or-eq-false, and-eq-false, not-eq-true,
  report_when, is_empty-true,
}
use sokel_plugin_sdk.Gen.Check.{
  is_wire_type, is_structured, union_problems, is_undefined, opaque_problems, own_problems,
  head_problems,
}

-- A json object or an array.
abbrev IsStructured : Text → Type 0
IsStructured t = (t ≡ codes "json") ⊎ (t ≡ codes "array")

-- The Go type of a json object or an array is the name of a structure.
abbrev IsReference : IrAttributes → Type 0
IsReference a = (a.go_type ≢ []) × (is_int_go_type a.go_type ≡ false) × IsStructured a.type_name

-- A field without structure has a reason, in the description.
abbrev IsOpaque : IrAttributes → IrFields → IrValueType → Type 0
IsOpaque a fs vt =
    IsStructured a.type_name
    × ((trim_space a.desc ≢ []) × ((fs ≡ no_ir_fields) × (vt ≡ no_ir_value_type)))

-- The members of a field fit each other.
abbrev pub IsSoundOwn : IrAttributes → IrFields → IrValueType → Type 0
IsSoundOwn a fs vt =
    (is_wire_type a.type_name ≡ true)
    × (All (λ t. is_wire_type t ≡ true) a.types
        × (((a.type_name ≡ codes "enum") → (a.options ≢ []))
            × (((a.type_name ≢ codes "enum") → (a.options ≡ []))
                × (((vt ≢ no_ir_value_type) → (fs ≡ no_ir_fields))
                    × ((IsReference a
                          → (a.opaque ≡ true) ⊎ ((fs ≢ no_ir_fields) ⊎ (vt ≢ no_ir_value_type)))
                        × ((a.opaque ≡ true) → IsOpaque a fs vt))))))

union_problems_iff :
    (place : Text) (ts : List Text)
    → (union_problems place ts ≡ []) ↔ All (λ t. is_wire_type t ≡ true) ts
unfolding union_problems
union_problems_iff place [] = (λ h. tt, λ h. refl)
union_problems_iff place (t ∷ ts) =
    let rest = union_problems_iff place ts in
    elim (Bool-cases (is_wire_type t)) [
      | inl known ↦ rw known (λ h. (refl, rest.0 h), λ h. rest.1 h.1)
      | inr unknown ↦ rw unknown (λ h. absurd (ground arith), λ h. absurd (ground arith))
    ]

is_structured_iff : (t : Text) → (is_structured t ≡ true) ↔ IsStructured t
is_structured_iff t = ground (arith, same_iff t (codes "json"), same_iff t (codes "array"))

is_no_fields_iff : (fs : IrFields) → (is_no_fields fs ≡ true) ↔ (fs ≡ no_ir_fields)
is_no_fields_iff no_ir_fields = (λ h. refl, λ h. refl)
is_no_fields_iff (and_ir_field f fs) = (λ h. absurd (ground arith), λ h. absurd (ground arith))

is_no_value_type_iff : (vt : IrValueType) → (is_no_value_type vt ≡ true) ↔ (vt ≡ no_ir_value_type)
is_no_value_type_iff no_ir_value_type = (λ h. refl, λ h. refl)
is_no_value_type_iff (ir_value_type f) = (λ h. absurd (ground arith), λ h. absurd (ground arith))

opaque_problems_iff :
    (place : Text) (a : IrAttributes) (fs : IrFields) (vt : IrValueType)
    → (opaque_problems place a fs vt ≡ []) ↔ IsOpaque a fs vt
unfolding opaque_problems
opaque_problems_iff place a fs vt =
    report_both (report-eq-nil _ _ (not-eq-false _ (is_structured_iff a.type_name))) (
      report_both (report-eq-nil _ _ (is_empty_iff (trim_space a.desc))) (
        report-eq-nil _ _ (
          or-eq-false _ _ (not-eq-false _ (is_no_fields_iff fs))
            (not-eq-false _ (is_no_value_type_iff vt)))))

enum_iff :
    (t : Text) (os : List Choice)
    → ((same t (codes "enum") && is_empty os) ≡ false) ↔ ((t ≡ codes "enum") → (os ≢ []))
enum_iff t os = and-eq-false _ _ (same_iff t (codes "enum")) (is_empty_iff os)

not_enum_iff :
    (t : Text) (os : List Choice)
    → ((not (same t (codes "enum")) && not (is_empty os)) ≡ false)
      ↔ ((t ≢ codes "enum") → (os ≡ []))
not_enum_iff t os =
    and-eq-false _ _ (not-eq-true _ (same_iff t (codes "enum"))) (not-eq-false _ (is_empty-true os))

exclusive_iff :
    (fs : IrFields) (vt : IrValueType)
    → ((not (is_no_value_type vt) && not (is_no_fields fs)) ≡ false)
      ↔ ((vt ≢ no_ir_value_type) → (fs ≡ no_ir_fields))
exclusive_iff fs vt =
    and-eq-false _ _ (not-eq-true _ (is_no_value_type_iff vt))
      (not-eq-false _ (is_no_fields_iff fs))

is_undefined_iff :
    (a : IrAttributes) (fs : IrFields) (vt : IrValueType)
    → (is_undefined a fs vt ≡ false)
      ↔ (IsReference a → (a.opaque ≡ true) ⊎ ((fs ≢ no_ir_fields) ⊎ (vt ≢ no_ir_value_type)))
unfolding is_undefined
is_undefined_iff a fs vt = ground (
  arith,
  is_structured_iff a.type_name,
  is_no_fields_iff fs,
  is_no_value_type_iff vt,
  is_empty_iff a.go_type,
)

pub own_problems_iff :
    (place : Text) (a : IrAttributes) (fs : IrFields) (vt : IrValueType)
    → (own_problems place a fs vt ≡ []) ↔ IsSoundOwn a fs vt
unfolding own_problems
own_problems_iff place a fs vt =
    report_both (report-eq-nil _ _ (not-eq-false _ ((λ h. h), (λ h. h)))) (
      report_both (union_problems_iff place a.types) (
        report_both (report-eq-nil _ _ (enum_iff a.type_name a.options)) (
          report_both (report-eq-nil _ _ (not_enum_iff a.type_name a.options)) (
            report_both (report-eq-nil _ _ (exclusive_iff fs vt)) (
              report_both (report-eq-nil _ _ (is_undefined_iff a fs vt))
                (report_when a.opaque _ (opaque_problems_iff place a fs vt)))))))

pub head_problems_iff :
    (place : Text) (h : IrVariantHead)
    → (head_problems place h ≡ []) ↔ ((h.name ≢ []) × (h.type_name ≢ []))
unfolding head_problems
head_problems_iff place h =
    report_both (report-eq-nil _ _ (is_empty_iff h.name))
      (report-eq-nil _ _ (is_empty_iff h.type_name))
