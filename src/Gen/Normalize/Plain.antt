-- ===== src/Gen/Normalize/Plain.antt =====
-- `normalizeOne` of internal/gen/manifest.go on types that are no shorthands.
use sokel_plugin_sdk.Base.{Text, codes, same, false, ◌≡◌, arith}
use sokel_plugin_sdk.Gen.Field.{IrAttributes}
use sokel_plugin_sdk.Gen.Normalize.{expand}

-- The type is none of the shorthands.
abbrev pub IsPlainType : Text → Type 0
IsPlainType t =
    (same t (codes "int") ≡ false)
    × (same t (codes "files") ≡ false)
    × (same t (codes "ints") ≡ false)
    × (same t (codes "strings") ≡ false)

pub expand_plain : (a : IrAttributes) → IsPlainType a.type_name → expand a ≡ a
unfolding expand
expand_plain a h = ground arith
