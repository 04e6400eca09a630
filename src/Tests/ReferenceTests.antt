-- ===== src/Tests/ReferenceTests.antt =====
-- internal/gen/manifest.go: references between the structures of small declarations.
use sokel_plugin_sdk.Base.{
  ℕ, zero, suc, Text, codes, false, none, some, eq_of_some, List, [], ◌∷◌, ◌≡◌, refl, inl, arith,
  same, lookup,
}
use mathlib.Core.Path.{subst}
use sokel_plugin_sdk.Contract.Field.{null}
use sokel_plugin_sdk.Gen.Field.{IrAttributes}
use sokel_plugin_sdk.Gen.Names.{is_int_go_type}
use sokel_plugin_sdk.Gen.References.{Cell, Store, get_at, resolve, refer, walk_roots}
use sokel_plugin_sdk.Gen.References.Cycles.{IsEndless, walk_roots-IsEndless}
use sokel_plugin_sdk.Gen.References.Ranked.{Fits, IsRanked, walk_roots-IsRanked}
use sokel_plugin_sdk.Gen.References.Values.{walk_roots-values}

-- A json field of the structure.
abbrev structure : Text → Text → IrAttributes
structure name go_type = record {
  name = name;
  label = [];
  type_name = codes "json";
  types = [];
  required = false;
  default = null;
  desc = [];
  placeholder = [];
  help = [];
  options = [];
  go_type = go_type;
  item_type = [];
  opaque = false;
  place = [];
  param = [];
  from_path = [];
}

abbrev cell : Text → Text → ℕ → Cell
cell name go_type a = record {
  attributes = structure name go_type;
  fields = a;
  branches = [];
  value_type = none;
}

-- Slice 1 has a field of the structure `Node`, whose fields are slice 2. The only field there refers
-- to `Node`. Slice 0 is empty.
abbrev tree_slices : ℕ → List Cell
tree_slices zero = []
tree_slices (suc zero) = cell (codes "root") (codes "Node") 2 ∷ []
tree_slices (suc (suc n)) = elim n [
  | zero ↦ cell (codes "child") (codes "Node") 0 ∷ []
  | suc k ↦ []
]

abbrev tree : Store
tree = record {
  slices = tree_slices;
  values = λ v. cell (codes "value") (codes "Node") 0;
  defs = (codes "Node", 2) ∷ [];
}

-- The slices 1 and 2
abbrev InTree : ℕ → Type 0
InTree zero = ⊥
InTree (suc zero) = Unit
InTree (suc (suc zero)) = Unit
InTree (suc (suc (suc n))) = ⊥

tree-IsEndless : IsEndless InTree tree
unfolding resolve get_at lookup same is_int_go_type
tree-IsEndless zero h = absurd h
tree-IsEndless (suc zero) h = (0, (cell (codes "root") (codes "Node") 2, (refl, tt)))
tree-IsEndless (suc (suc zero)) h = (0, (cell (codes "child") (codes "Node") 0, (refl, tt)))
tree-IsEndless (suc (suc (suc n))) h = absurd h

walk_roots-IsEndless_example : walk_roots refer 100 (1 ∷ []) tree ≡ none
walk_roots-IsEndless_example =
    walk_roots-IsEndless InTree 100 1 (1 ∷ []) tree (inl refl) tt tree-IsEndless

-- Slice 1 has a field of the structure `Profile`, whose fields are slice 2; the only field there has
-- no structure. The field of slice 3 refers to `Profile`, and so does every value type.
abbrev flat_slices : ℕ → List Cell
flat_slices zero = []
flat_slices (suc zero) = cell (codes "profile") (codes "Profile") 2 ∷ []
flat_slices (suc (suc n)) = elim n [
  | zero ↦ cell (codes "id") [] 0 ∷ []
  | suc k ↦ elim k [ zero ↦ cell (codes "echo") (codes "Profile") 0 ∷ [] | suc j ↦ [] ]
]

abbrev flat : Store
flat = record {
  slices = flat_slices;
  values = λ v. cell (codes "value") (codes "Profile") 0;
  defs = (codes "Profile", 2) ∷ [];
}

abbrev depth : ℕ → ℕ
depth zero = 0
depth (suc zero) = 2
depth (suc (suc zero)) = 1
depth (suc (suc (suc n))) = 2

only_field :
    (P : Cell → Type 0) (d : Cell) → P d → (i : ℕ) (c : Cell) → get_at i (d ∷ []) ≡ some c → P c
unfolding get_at
only_field P d p zero c e = subst P (eq_of_some e) p
only_field P d p (suc i) c e = absurd (ground arith)

no_field : {P : Type 0} (i : ℕ) (c : Cell) → get_at i [] ≡ some c → P
unfolding get_at
no_field i c e = absurd (ground arith)

flat-Fits :
    (a i : ℕ) (c : Cell)
    → get_at i (flat.slices a) ≡ some c
    → Fits depth (λ v. 2) (depth a) (resolve flat c)
unfolding resolve is_int_go_type lookup same
flat-Fits zero i c e = no_field i c e
flat-Fits (suc zero) i c e =
    only_field (λ d. Fits depth (λ v. 2) 2 (resolve flat d))
      (cell (codes "profile") (codes "Profile") 2) (omega arith, (tt, tt)) i c e
flat-Fits (suc (suc zero)) i c e =
    only_field (λ d. Fits depth (λ v. 2) 1 (resolve flat d)) (cell (codes "id") [] 0)
      (omega arith, (tt, tt)) i c e
flat-Fits (suc (suc (suc zero))) i c e =
    only_field (λ d. Fits depth (λ v. 2) 2 (resolve flat d))
      (cell (codes "echo") (codes "Profile") 0) (omega arith, (tt, tt)) i c e
flat-Fits (suc (suc (suc (suc n)))) i c e = no_field i c e

value-Fits : (v : ℕ) → Fits depth (λ w. 2) 2 (resolve flat (flat.values v))
unfolding resolve is_int_go_type lookup same
value-Fits v = (omega arith, (tt, tt))

flat-IsRanked : IsRanked depth (λ v. 2) flat
flat-IsRanked = (flat-Fits, value-Fits)

flat_walk :
    (t : Store) × ((walk_roots refer 2 (1 ∷ 3 ∷ []) flat ≡ some t) × IsRanked depth (λ v. 2) t)
flat_walk =
    walk_roots-IsRanked depth (λ v. 2) 2 (1 ∷ 3 ∷ []) flat (omega arith, (omega arith, tt))
      flat-IsRanked

walk_roots-IsRanked_example :
    (t : Store) × ((walk_roots refer 2 (1 ∷ 3 ∷ []) flat ≡ some t) × IsRanked depth (λ v. 2) t)
walk_roots-IsRanked_example =
    walk_roots-IsRanked depth (λ v. 2) 2 (1 ∷ 3 ∷ []) flat (omega arith, (omega arith, tt))
      flat-IsRanked

walk_roots-values_example : flat_walk.0.values ≡ flat.values
walk_roots-values_example = walk_roots-values 2 (1 ∷ 3 ∷ []) flat flat_walk.0 flat_walk.1.0
