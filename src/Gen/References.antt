-- ===== src/Gen/References.antt =====
-- internal/gen/manifest.go: `resolveGoTypeRefs` and `walkFields`, on the store of the slices that
-- the fields of a declaration share.
pub mod Keeps
pub mod Cycles
pub mod Ranked
pub mod Values
use sokel_plugin_sdk.Base.{
  ℕ, zero, suc, Text, Bool, true, false, not, ◌&&◌, ◌||◌, Option, none, some, List, [], ◌∷◌, length,
  is_empty, ◌==◌, Map, lookup, put, if◌then◌else◌,
}
use sokel_plugin_sdk.Gen.Field.{IrAttributes, IrVariantHead}
use sokel_plugin_sdk.Gen.Names.{is_int_go_type}
use sokel_plugin_sdk.Gen.Transports.{is_nil}

-- A `Field`: its slices are addresses, and so is the field that `ValueType` points to.
pub record Cell : Type 0 where
  pub attributes : IrAttributes
  pub fields : ℕ
  pub branches : List (IrVariantHead × ℕ)
  pub value_type : Option ℕ

-- The arrays behind the slices, the fields behind the pointers, and the map `defs`.
pub record Store : Type 0 where
  pub slices : ℕ → List Cell
  pub values : ℕ → Cell
  pub defs : Map ℕ

-- `fn(&fs[i])`, as the new field and the new store
abbrev Visitor : Type 0
Visitor = Cell → Store → Cell × Store

abbrev pub and_then {ℓ} : {A B : Type ℓ} → Option A → (A → Option B) → Option B
and_then none next = none
and_then (some a) next = next a

unfoldable pub get_at : ℕ → List Cell → Option Cell
get_at i [] = none
get_at zero (c ∷ cs) = some c
get_at (suc i) (c ∷ cs) = get_at i cs

unfoldable pub set_at : ℕ → Cell → List Cell → List Cell
set_at i c [] = []
set_at zero c (d ∷ cs) = c ∷ cs
set_at (suc i) c (d ∷ cs) = d ∷ set_at i c cs

-- `fs[i] = c` for the slice at the address
unfoldable pub write : ℕ → ℕ → Cell → Store → Store
unfolding set_at
write a i c s = record s { slices = λ b. if b == a then set_at i c (s.slices b) else s.slices b }

-- The body of the loop of `walkFieldList`; `descend` is what it does below a field.
unfoldable pub visit_at :
    (Cell → Store → Option Store) → Visitor → ℕ → ℕ → Option Cell → Store → Option Store
unfolding write
visit_at descend visit a i none s = some s
visit_at descend visit a i (some c) s = let (c', s') = visit c s in descend c' (write a i c' s')

-- The loop from an index on, for the number of fields that are left; each field is read when its
-- turn comes.
unfoldable pub walk_from :
    (Cell → Store → Option Store) → Visitor → ℕ → ℕ → ℕ → Store → Option Store
unfolding get_at visit_at
walk_from descend visit a i zero s = some s
walk_from descend visit a i (suc n) s =
    and_then (visit_at descend visit a i (get_at i (s.slices a)) s)
      (walk_from descend visit a (suc i) n)

unfoldable pub walk_slice : (Cell → Store → Option Store) → Visitor → ℕ → Store → Option Store
unfolding walk_from
walk_slice descend visit a s = walk_from descend visit a 0 (length (s.slices a)) s

unfoldable pub walk_branches :
    (Cell → Store → Option Store) → Visitor → List (IrVariantHead × ℕ) → Store → Option Store
unfolding walk_slice
walk_branches descend visit [] s = some s
walk_branches descend visit ((h, a) ∷ bs) s =
    and_then (walk_slice descend visit a s) (walk_branches descend visit bs)

-- `walkFieldList([]Field{*f.ValueType}, fn)`: the new slice holds a copy of the field.
unfoldable pub walk_value :
    (Cell → Store → Option Store) → Visitor → Option ℕ → Store → Option Store
walk_value descend visit none s = some s
walk_value descend visit (some v) s = let (c', s') = visit (s.values v) s in descend c' s'

-- What `walkFieldList` does with a field after `fn`, on fuel for the depth of the calls.
unfoldable pub below : Visitor → ℕ → Cell → Store → Option Store
unfolding walk_slice walk_branches walk_value
below visit zero c s = none
below visit (suc n) c s = and_then (walk_slice (below visit n) visit c.fields s) (λ s1.
    and_then (walk_branches (below visit n) visit c.branches s1)
      (λ s2. walk_value (below visit n) visit c.value_type s2))

-- `walkFields` over the slices of the operations, capabilities, events and the credential
unfoldable pub walk_roots : Visitor → ℕ → List ℕ → Store → Option Store
unfolding below
walk_roots visit n [] s = some s
walk_roots visit n (a ∷ roots) s =
    and_then (walk_slice (below visit n) visit a s) (walk_roots visit n roots)

-- `f.GoType == "" || isIntGoType(f.GoType)`
abbrev has_no_name : Cell → Bool
has_no_name c = is_empty c.attributes.go_type || is_int_go_type c.attributes.go_type

-- The first walk: the first field with a name and fields defines the name.
unfoldable define_structure : Visitor
define_structure c s =
    let name = c.attributes.go_type in
    (
      c,
      if has_no_name c || (is_empty (s.slices c.fields) || not (is_nil (lookup name s.defs)))
          then s
          else record s { defs = put name c.fields s.defs },
    )

-- The second walk: a field with a name and no structure shares the fields of the definition.
unfoldable pub resolve : Store → Cell → Cell
resolve s c =
    if has_no_name c
      || (not (is_empty (s.slices c.fields)) || (not (is_nil c.value_type) || c.attributes.opaque))
    then c
    else elim (lookup c.attributes.go_type s.defs) [ none ↦ c | some a ↦ record c { fields = a } ]

unfoldable pub refer : Visitor
unfolding resolve
refer c s = (resolve s c, s)

unfoldable resolve_go_type_refs : ℕ → List ℕ → Store → Option Store
unfolding walk_roots define_structure refer
resolve_go_type_refs n roots s =
    and_then (walk_roots define_structure n roots (record s { defs = [] }))
      (λ s1. if is_empty s1.defs then some s1 else walk_roots refer n roots s1)
