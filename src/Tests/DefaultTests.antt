-- ===== src/Tests/DefaultTests.antt =====
-- contract/contract.go: defaults in the tags of two fields.
use sokel_plugin_sdk.Base.{
  Text, index, codes, true, false, lookup, same, Option, none, some, [], ◌∷◌, ◌≡◌, refl,
}
use sokel_plugin_sdk.Contract.Field.{str, null, attributes, t_number}
use sokel_plugin_sdk.Contract.GoTypes.{StructField, Package, kind_of, float_type, string_type}
use sokel_plugin_sdk.Contract.Derive.{plain_type, derived_field, by_kind}
use sokel_plugin_sdk.Contract.Defaults.{Numbers, apply_default_tag, bind_credential}
use sokel_plugin_sdk.Contract.Defaults.Agreement.{apply_default_tag-derived_field}

abbrev literals : Numbers
literals = record { int_of = λ k s. s; float_of = λ k s. s }

abbrev any_float : Text → Option Text
any_float s = some s

abbrev settings : Package
settings = record {
  struct_fields = λ i. [];
  underlying = λ i. string_type;
  is_file_ref = λ t. false;
}

-- `Ratio float64 `default:"2.5"``
abbrev ratio : StructField
ratio = record {
  name = codes "Ratio";
  exported = true;
  tags = (codes "default", codes "2.5") ∷ [];
  go_type = float_type (codes "float64");
}

no_type : lookup (codes "type") ratio.tags ≡ none
unfolding lookup same
no_type = refl

no_enum : lookup (codes "enum") ratio.tags ≡ none
unfolding lookup same
no_enum = refl

tagged : lookup (codes "default") ratio.tags ≡ some (codes "2.5")
unfolding lookup same
tagged = refl

ratio_kind :
    by_kind any_float settings (λ seen t. none) [] (kind_of settings ratio.go_type)
    ≡ some (plain_type t_number)
unfolding by_kind kind_of
ratio_kind = refl

ratio_settled : any_float (codes "2.5") ≡ some (literals.float_of (codes "float64") (codes "2.5"))
ratio_settled = refl

apply_default_tag-derived_field_example :
    apply_default_tag literals settings ratio null
    ≡ (attributes (
        derived_field any_float settings ratio (codes "ratio") false (plain_type t_number))).default
unfolding kind_of
apply_default_tag-derived_field_example =
    apply_default_tag-derived_field any_float settings ratio (codes "ratio") false
      (plain_type t_number) (codes "2.5") no_type no_enum tagged literals (λ seen t. none) [] null
      refl ratio_settled ratio_kind

-- A credential gives a string field its value.
abbrev token : StructField
token = record ratio { name = codes "Token"; go_type = string_type }

token_bound :
    bind_credential literals settings ((codes "token", codes "t") ∷ []) ((token, null) ∷ [])
    ≡ (token, str (codes "t")) ∷ []
unfolding bind_credential same index lookup
token_bound = refl
