-- ===== src/Base/Maps.antt =====
-- Go maps with string keys: an association list whose keys are distinct. `range` visits the
-- entries in an order that the language leaves open, so loops take that order as a parameter.
use mathlib.Core.Path.{◌≡◌, refl}
use mathlib.Core.Option.{Option, none, some}
use mathlib.Core.List.{List, [], ◌∷◌}
use native.Mathlib.Omega.{arith}
use sokel_plugin_sdk.Base.Tests.{if◌then◌else◌}
use sokel_plugin_sdk.Base.Texts.{Text, same, same_iff}

abbrev pub Map {ℓ} : Type ℓ → Type ℓ
Map V = List (Text × V)

module _ {ℓ} {V : Type ℓ} where
  -- `v, ok := m[k]`
  unfoldable pub lookup : Text → Map V → Option V
  lookup k [] = none
  lookup k ((j, v) ∷ m) = if same j k then some v else lookup k m

  -- `m[k] = v`
  unfoldable pub put : Text → V → Map V → Map V
  put k v [] = (k, v) ∷ []
  put k v ((j, w) ∷ m) = if same j k then (k, v) ∷ m else (j, w) ∷ put k v m

  -- `m[k]` where the value type's zero value is `d`
  unfoldable pub index : V → Text → Map V → V
  index d k [] = d
  index d k ((j, v) ∷ m) = if same j k then v else index d k m

  pub lookup-put :
      (k j : Text) (v : V) (m : Map V)
      → lookup j (put k v m) ≡ (if same k j then some v else lookup j m)
  unfolding lookup put
  lookup-put k j v [] = refl
  lookup-put k j v ((i, w) ∷ m) =
      ground (arith, same_iff k j, same_iff i k, same_iff i j, lookup-put k j v m)

  -- The keys are distinct.
  abbrev pub IsMap : Map V → Type ℓ
  IsMap [] = Unit
  IsMap ((k, v) ∷ m) = (lookup k m ≡ none) × IsMap m

  pub put-IsMap : (k : Text) (v : V) (m : Map V) → IsMap m → IsMap (put k v m)
  unfolding put lookup
  put-IsMap k v [] h = (refl, tt)
  put-IsMap k v ((j, w) ∷ m) (fresh, h) =
      ground (arith, same_iff j k, same_iff k j, lookup-put k j v m, put-IsMap k v m h)

-- The order in which `range` visits a map: every entry once.
pub record RangeOrder : Type 1 where
  pub visit : (V : Type 0) → Map V → Map V
  pub visit-IsMap : (V : Type 0) (m : Map V) → IsMap m → IsMap (visit V m)
  pub lookup-visit :
      (V : Type 0) (m : Map V) (k : Text) → IsMap m → lookup k (visit V m) ≡ lookup k m

abbrev pub in_order : RangeOrder
in_order = record { visit = λ V m. m; visit-IsMap = λ V m h. h; lookup-visit = λ V m k h. refl }
