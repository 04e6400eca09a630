-- ===== src/Contract/Schema/Required.antt =====
-- The check `RequireInputs` of contract/schema.go.
use sokel_plugin_sdk.Base.{
  true, false, Option, none, some, List, [], ◌∷◌, All, Map, lookup, ◌≡◌, ◌≢◌, ◌↔◌, refl, sym,
  eq_of_some, arith, Bool-cases, inl, inr,
}
use sokel_plugin_sdk.Contract.Field.{
  Value, null, bool, num, str, arr, obj, Field, attributes, name_of,
}
use sokel_plugin_sdk.Contract.Schema.{
  Operation, fields_of, is_missing, first_missing, require_inputs,
}

-- A value is given that is neither null nor the empty string.
abbrev IsGiven : Option Value → Type 0
IsGiven o = (v : Value) × (o ≡ some v) × (v ≢ null) × (v ≢ str [])

is_missing_iff : (o : Option Value) → (is_missing o ≡ false) ↔ IsGiven o
unfolding is_missing
is_missing_iff none = (λ h. absurd (ground arith), λ g. absurd (ground arith))
is_missing_iff (some null) = (λ h. absurd (ground arith), λ g. absurd (g.2 (sym (eq_of_some g.1))))
is_missing_iff (some (bool b)) = (λ h. (bool b, refl, (λ e. cc), λ e. cc), λ g. refl)
is_missing_iff (some (num t)) = (λ h. (num t, refl, (λ e. cc), λ e. cc), λ g. refl)
is_missing_iff (some (str [])) =
    (λ h. absurd (ground arith), λ g. absurd (g.3 (sym (eq_of_some g.1))))
is_missing_iff (some (str (b ∷ t))) = (λ h. (str (b ∷ t), refl, (λ e. cc), λ e. cc), λ g. refl)
is_missing_iff (some (arr vs)) = (λ h. (arr vs, refl, (λ e. cc), λ e. cc), λ g. refl)
is_missing_iff (some (obj m)) = (λ h. (obj m, refl, (λ e. cc), λ e. cc), λ g. refl)

-- A required field is given under its name.
abbrev IsSatisfied : Map Value → Field → Type 0
IsSatisfied cfg f = (attributes f).required ≡ true → IsGiven (lookup (name_of f) cfg)

first_missing_iff :
    (op : Operation) (cfg : Map Value) (fs : List Field)
    → (first_missing op cfg fs ≡ none) ↔ All (IsSatisfied cfg) fs
unfolding first_missing
first_missing_iff op cfg [] = (λ h. tt, λ h. refl)
first_missing_iff op cfg (f ∷ fs) =
    let rest = first_missing_iff op cfg fs in
    let given = is_missing_iff (lookup (name_of f) cfg) in
    elim (Bool-cases (attributes f).required) [
      | inr optional ↦ rw optional (λ h. ((λ r. absurd (ground arith)), rest.0 h), λ h. rest.1 h.1)
      | inl required ↦ elim (Bool-cases (is_missing (lookup (name_of f) cfg))) [
        | inl missing ↦
            rw (required, missing)
              (λ h. absurd (ground arith), λ h. absurd (cc (missing, given.1 (h.0 refl))))
        | inr there ↦ rw (required, there) (λ h. ((λ r. given.0 there), rest.0 h), λ h. rest.1 h.1)
      ]
    ]

-- The check of the inputs passes exactly when each field of the contract that is required has a value
-- under its name that is neither null nor the empty string.
require_inputs_iff :
    (op : Operation) (cfg : Map Value)
    → (require_inputs op cfg ≡ none) ↔ All (IsSatisfied cfg) (fields_of op.inputs)
unfolding require_inputs
require_inputs_iff op cfg = first_missing_iff op cfg (fields_of op.inputs)
