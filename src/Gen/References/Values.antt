-- ===== src/Gen/References/Values.antt =====
-- `resolveGoTypeRefs` of internal/gen/manifest.go on the types of map values.
use sokel_plugin_sdk.Base.{ℕ, some, List, ◌≡◌, refl}
use sokel_plugin_sdk.Gen.References.{Cell, Store, write, walk_roots, refer}
use sokel_plugin_sdk.Gen.References.Keeps.{IsKept, walk_roots_keeps}

values_kept : (values : ℕ → Cell) → IsKept (λ t. t.values ≡ values)
unfolding write
values_kept values s x k d m e = e

-- The walk that resolves references leaves every field behind a `ValueType` pointer as it was: it
-- resolves a copy, so a value type that refers to a structure by name gets no fields.
pub walk_roots-values :
    (n : ℕ) (roots : List ℕ) (s t : Store)
    → walk_roots refer n roots s ≡ some t
    → t.values ≡ s.values
walk_roots-values n roots s t e =
    walk_roots_keeps (λ u. u.values ≡ s.values) (values_kept s.values) n roots s t e refl
