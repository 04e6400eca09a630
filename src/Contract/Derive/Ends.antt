-- ===== src/Contract/Derive/Ends.antt =====
-- `DeriveFields` of contract/contract.go: when the recursion over a type ends.
use sokel_plugin_sdk.Base.{
  ℕ, zero, suc, ◌+◌, ◌≤◌, ◌<◌, Text, same, codes, Bool, true, false, not, ◌||◌, Option, none, some,
  List, [], ◌∷◌, In, All, length, ==_iff, if◌then◌else◌, ◌≡◌, refl, ap, ◌∙◌, arith, Bool-cases, inl,
  inr,
}
use sokel_plugin_sdk.Contract.Field.{
  Fields, no_fields, and_field, no_value_type, t_array, t_json, ParamType,
}
use sokel_plugin_sdk.Contract.Tags.{parse_sokel_tag}
use sokel_plugin_sdk.Contract.GoTypes.{
  GoType, StructField, Package, strip, kind_of, bool_type, int_type, float_type, string_type,
  interface_type, pointer, slice, array_type, map_type, struct_type, defined, other_type,
}
use sokel_plugin_sdk.Contract.Derive.{
  Derived, derived_field, derive_each, is_seen, derive_kind, derive_struct, plain_type, with_fields,
  map_of, by_kind, field_type_seen, derive_fields,
}

map_step :
    (parse_float : Text → Option Text) (p : Package) (i : ℕ)
    (rec : List ℕ → GoType → Option Derived) (seen : List ℕ)
    → p.underlying i ≡ map_type string_type (defined i)
    → by_kind parse_float p rec seen (map_type string_type (defined i))
      ≡ map_of (rec seen (defined i))
unfolding by_kind kind_of
map_step parse_float p i rec seen own = rw own refl

-- A map type with string keys that is its own value type is never derived, whatever depth of calls is allowed: the
-- set of the types on the path holds structs only.
pub field_type_seen-map :
    (parse_float : Text → Option Text) (p : Package) (i n : ℕ) (seen : List ℕ)
    → p.is_file_ref (defined i) ≡ false
    → p.underlying i ≡ map_type string_type (defined i)
    → field_type_seen parse_float p n seen (defined i) ≡ none
unfolding field_type_seen
field_type_seen-map parse_float p i zero seen plain own = refl
field_type_seen-map parse_float p i (suc n) seen plain own =
    rw (plain, own)
      (map_step parse_float p i (field_type_seen parse_float p n) seen own
        ∙ ap map_of (field_type_seen-map parse_float p i n seen plain own))

-- The structs that are not on the path
abbrev unseen : List ℕ → List ℕ → ℕ
unseen [] seen = 0
unseen (i ∷ ids) seen = let rest = unseen ids seen in if is_seen seen i then rest else suc rest

unseen_le : (ids seen : List ℕ) (i : ℕ) → unseen ids (i ∷ seen) ≤ unseen ids seen
unfolding is_seen
unseen_le [] seen i = omega arith
unseen_le (j ∷ ids) seen i = ground (arith, unseen_le ids seen i)

-- A struct that enters the path is no longer off it.
unseen_lt :
    (ids seen : List ℕ) (i : ℕ)
    → In i ids
    → is_seen seen i ≡ false
    → unseen ids (i ∷ seen) < unseen ids seen
unfolding is_seen
unseen_lt [] seen i m new = absurd m
unseen_lt (j ∷ ids) seen i (inl e) new = ground (arith, unseen_le ids seen i, ==_iff i j)
unseen_lt (j ∷ ids) seen i (inr m) new = ground (arith, unseen_lt ids seen i m new)

-- The depth of calls that is enough for a number of structs
abbrev budget : ℕ → ℕ → ℕ
budget d zero = 0
budget d (suc u) = d + budget d u

budget_lt : (d u v : ℕ) → u < v → d + budget d u ≤ budget d v
budget_lt d u zero lt = absurd (omega arith)
budget_lt d zero (suc v) lt = omega arith
budget_lt d (suc u) (suc v) lt = omega (arith, budget_lt d u v (omega arith))

-- The types `K` that occur are closed: their structs are among `ids`, with fields of such types,
-- and the values of maps and the elements of slices are of such types. From each of them the values
-- of maps lead to a struct or end after `nest` steps, fewer than `d` for the types of fields.
pub record IsTame (p : Package) (K : GoType → Type 0) (ids : List ℕ) (nest : GoType → ℕ) (d : ℕ)
    : Type 0 where
  pub structs : (t : GoType) (i : ℕ) → K t → kind_of p (strip t) ≡ struct_type i → In i ids
  pub slices : (t el : GoType) → K t → kind_of p (strip t) ≡ slice el → K el
  pub arrays : (t el : GoType) → K t → kind_of p (strip t) ≡ array_type el → K el
  pub maps :
      (t k el : GoType) → K t → kind_of p (strip t) ≡ map_type k el → K el × (nest el < nest t)
  pub bounded :
      (i : ℕ) → In i ids → All (λ sf. K sf.go_type × (nest sf.go_type < d)) (p.struct_fields i)

unseen_start : (ids : List ℕ) → unseen ids [] ≡ length ids
unfolding is_seen
unseen_start [] = refl
unseen_start (i ∷ ids) = omega (arith, unseen_start ids)

module _ (parse_float : Text → Option Text) (p : Package) (K : GoType → Type 0) (ids : List ℕ)
    (nest : GoType → ℕ) (d : ℕ) (tame : IsTame p K ids nest d) where
  -- A call that is deep enough ends.
  abbrev Ends : ℕ → (List ℕ → GoType → Option Derived) → Type 0
  Ends n rec =
      (seen : List ℕ) (t : GoType)
      → K t
      → budget d (unseen ids seen) + nest t < n
      → (r : Derived) × (rec seen t ≡ some r)

  each-Ends :
      (rec : GoType → Option Derived) (sfs : List StructField)
      → All (λ sf. (r : Derived) × (rec sf.go_type ≡ some r)) sfs
      → (fs : Fields) × (derive_each parse_float p rec sfs ≡ some fs)
  unfolding derive_each
  each-Ends rec [] h = (no_fields, refl)
  each-Ends rec (sf ∷ sfs) ((r, e), h) =
      let (fs, rest) = each-Ends rec sfs h in
      let name = parse_sokel_tag sf.name sf.tags in
      elim (Bool-cases (not sf.exported || same name.0 (codes "-"))) [
        | inl skipped ↦ (fs, rw skipped rest)
        | inr used ↦
            (and_field (derived_field parse_float p sf name.0 name.1 r) fs, rw (used, e, rest) refl)
      ]

  fields-Ends :
      (n : ℕ) (rec : List ℕ → GoType → Option Derived) (seen : List ℕ) (i : ℕ)
      → Ends n rec
      → budget d (unseen ids (i ∷ seen)) + d ≤ n
      → (sfs : List StructField) → All (λ sf. K sf.go_type × (nest sf.go_type < d)) sfs
      → All (λ sf. (r : Derived) × (rec (i ∷ seen) sf.go_type ≡ some r)) sfs
  fields-Ends n rec seen i ends le [] h = tt
  fields-Ends n rec seen i ends le (sf ∷ sfs) ((known, lt), h) =
      (ends (i ∷ seen) sf.go_type known (omega arith), fields-Ends n rec seen i ends le sfs h)

  -- A struct ends if the calls for its fields do.
  kind-Ends :
      (n : ℕ) (rec : List ℕ → GoType → Option Derived) (seen : List ℕ) (k : GoType)
      → Ends n rec
      → budget d (unseen ids seen) ≤ n
      → ((i : ℕ) → k ≡ struct_type i → In i ids)
      → (fs : Fields) × (derive_kind parse_float p rec seen k ≡ some fs)
  unfolding derive_kind
  kind-Ends n rec seen (struct_type i) ends le known = elim (Bool-cases (is_seen seen i)) [
    | inl on_path ↦ (no_fields, rw on_path refl)
    | inr new ↦
        let fewer = unseen_lt ids seen i (known i refl) new in
        let enough = budget_lt d (unseen ids (i ∷ seen)) (unseen ids seen) fewer in
        let (fs, each) = each-Ends (rec (i ∷ seen)) (p.struct_fields i) (
          fields-Ends n rec seen i ends (omega arith) (p.struct_fields i)
            (tame.bounded i (known i refl))) in
        (fs, rw new each)
  ]
  kind-Ends n rec seen bool_type ends le known = (no_fields, refl)
  kind-Ends n rec seen (int_type k) ends le known = (no_fields, refl)
  kind-Ends n rec seen (float_type k) ends le known = (no_fields, refl)
  kind-Ends n rec seen string_type ends le known = (no_fields, refl)
  kind-Ends n rec seen interface_type ends le known = (no_fields, refl)
  kind-Ends n rec seen (pointer u) ends le known = (no_fields, refl)
  kind-Ends n rec seen (slice u) ends le known = (no_fields, refl)
  kind-Ends n rec seen (array_type u) ends le known = (no_fields, refl)
  kind-Ends n rec seen (map_type k u) ends le known = (no_fields, refl)
  kind-Ends n rec seen (defined i) ends le known = (no_fields, refl)
  kind-Ends n rec seen other_type ends le known = (no_fields, refl)

  struct-Ends :
      (n : ℕ) (rec : List ℕ → GoType → Option Derived) (seen : List ℕ) (t : GoType)
      → Ends n rec
      → K t
      → budget d (unseen ids seen) ≤ n
      → (fs : Fields) × (derive_struct parse_float p rec seen t ≡ some fs)
  unfolding derive_struct
  struct-Ends n rec seen t ends used le =
      kind-Ends n rec seen (kind_of p (strip t)) ends le (λ i e. tame.structs t i used e)

  with_fields_ends :
      (b : Bool) (a c : ParamType) (x : Derived) (o : Option Fields)
      → ((fs : Fields) × (o ≡ some fs))
      → (r : Derived) × ((if b then some x else with_fields c o) ≡ some r)
  with_fields_ends true a c x o h = (x, refl)
  with_fields_ends false a c x o (fs, e) =
      (record { param_type = c; fields = fs; value_type = no_value_type }, ap (with_fields c) e)

  map_ends :
      (b : Bool) (x : Derived) (o : Option Derived)
      → (b ≡ false → (r : Derived) × (o ≡ some r))
      → (r : Derived) × ((if b then some x else map_of o) ≡ some r)
  map_ends true x o h = (x, refl)
  map_ends false x o h = let (r, e) = h refl in (_, ap map_of e)

  by_kind-Ends :
      (n : ℕ) (rec : List ℕ → GoType → Option Derived) (seen : List ℕ) (t k : GoType)
      → Ends n rec
      → K t
      → budget d (unseen ids seen) + nest t ≤ n
      → kind_of p (strip t) ≡ k
      → (r : Derived) × (by_kind parse_float p rec seen k ≡ some r)
  unfolding by_kind
  by_kind-Ends n rec seen t bool_type ends used le e = (_, refl)
  by_kind-Ends n rec seen t (int_type k) ends used le e = (_, refl)
  by_kind-Ends n rec seen t (float_type k) ends used le e = (_, refl)
  by_kind-Ends n rec seen t string_type ends used le e = (_, refl)
  by_kind-Ends n rec seen t interface_type ends used le e = (_, refl)
  by_kind-Ends n rec seen t (pointer u) ends used le e = (_, refl)
  by_kind-Ends n rec seen t (slice el) ends used le e =
      with_fields_ends (p.is_file_ref el) [] t_array _ _
        (struct-Ends n rec seen el ends (tame.slices t el used e) (omega arith))
  by_kind-Ends n rec seen t (array_type el) ends used le e =
      with_fields_ends (p.is_file_ref el) [] t_array _ _
        (struct-Ends n rec seen el ends (tame.arrays t el used e) (omega arith))
  by_kind-Ends n rec seen t (map_type k el) ends used le e =
      let (inner, shorter) = tame.maps t k el used e in
      map_ends _ _ _ (λ q. ends seen el inner (omega arith))
  by_kind-Ends n rec seen t (struct_type i) ends used le e =
      with_fields_ends false [] t_json (plain_type t_json) _ (
        kind-Ends n rec seen (struct_type i) ends (omega arith)
          (λ j q. tame.structs t j used (e ∙ q)))
  by_kind-Ends n rec seen t (defined i) ends used le e = (_, refl)
  by_kind-Ends n rec seen t other_type ends used le e = (_, refl)

  if_ends :
      (b : Bool) (x : Derived) (o : Option Derived)
      → ((r : Derived) × (o ≡ some r))
      → (r : Derived) × ((if b then some x else o) ≡ some r)
  if_ends true x o h = (x, refl)
  if_ends false x o h = h

  field_type-Ends : (n : ℕ) → Ends n (field_type_seen parse_float p n)
  unfolding field_type_seen
  field_type-Ends zero seen t used lt = absurd (omega arith)
  field_type-Ends (suc n) seen t used lt = if_ends (p.is_file_ref t) _ _ (
      by_kind-Ends n (field_type_seen parse_float p n) seen t (kind_of p (strip t))
        (field_type-Ends n) used (omega arith) refl)

  -- The derivation of fields ends for the types of a package with finitely many structs, however
  -- they refer to each other, if no map type leads to itself through the values of maps: calls that
  -- are `d` deep for each struct are enough.
  pub derive_fields_total :
      (n : ℕ) (t : GoType)
      → K t
      → budget d (length ids) ≤ n
      → (fs : Fields) × (derive_fields parse_float p n t ≡ some fs)
  unfolding derive_fields
  derive_fields_total n t used le =
      let start = ap (budget d) (unseen_start ids) in
      struct-Ends n (field_type_seen parse_float p n) [] t (field_type-Ends n) used (omega arith)
