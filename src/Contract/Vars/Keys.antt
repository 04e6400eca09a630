-- ===== src/Contract/Vars/Keys.antt =====
-- `structFieldsToMap` and `deriveFieldsSeen` of contract/contract.go: the names on the two sides.
use sokel_plugin_sdk.Base.{
  ℕ, Text, same, same_iff, codes, Bool, true, false, not, ◌||◌, Map, put, lookup, lookup-put,
  Option, none, some, List, [], ◌∷◌, In, ◌≡◌, ◌≢◌, ◌⊎◌, refl, sym, ◌∙◌, arith, Bool-cases,
  Option-cases, inl, inr,
}
use sokel_plugin_sdk.Contract.Field.{
  Fields, Value, no_fields, and_field, name_of, Attributes, ParamType,
}
use sokel_plugin_sdk.Contract.Tags.{parse_sokel_tag, tag_types}
use sokel_plugin_sdk.Contract.GoTypes.{GoType, StructField, Package, strip, kind_of, struct_type}
use sokel_plugin_sdk.Contract.Derive.{
  Derived, with_types, tag_text, derive_each, derived_field, derive_kind, derive_struct,
  derive_fields, field_type_seen, then_some, derived_base, type_tag, enum_tag, structure_of,
  demand_of,
}
use sokel_plugin_sdk.Contract.Vars.{
  GoValue, FieldValues, field_value, no_field_values, put_field, is_nil_value, sokel_value,
  struct_value, struct_fields_to_map, struct_to_vars,
}

-- The declarations of the fields of a struct
abbrev declared_as : FieldValues → List StructField
declared_as no_field_values = []
declared_as (field_value sf v fvs) = sf ∷ declared_as fvs

abbrev pub names_of : Fields → List Text
names_of no_fields = []
names_of (and_field f fs) = name_of f ∷ names_of fs

with_types-name : (ts : List ParamType) (a : Attributes) → (with_types ts a).name ≡ a.name
with_types-name [] a = refl
with_types-name (t ∷ []) a = refl
with_types-name (t ∷ u ∷ ts) a = refl

type_tag-name : (tags : Map Text) (a : Attributes) → (type_tag tags a).name ≡ a.name
unfolding type_tag
type_tag-name tags a = elim (Option-cases (tag_text (codes "type") tags)) [
  | inl e ↦ rw (type_tag, e) refl
  | inr (x, e) ↦ rw (type_tag, e) (with_types-name (tag_types x) a)
]

enum_tag-name : (tags : Map Text) (a : Attributes) → (enum_tag tags a).name ≡ a.name
unfolding enum_tag
enum_tag-name tags a = elim (Option-cases (tag_text (codes "enum") tags)) [
  | inl e ↦ rw (enum_tag, e) refl
  | inr (x, e) ↦ rw (enum_tag, e) refl
]

derived_field-name :
    (parse_float : Text → Option Text) (p : Package) (sf : StructField) (name : Text)
    (optional : Bool) (d : Derived)
    → name_of (derived_field parse_float p sf name optional d) ≡ name
unfolding derived_field demand_of structure_of derived_base
derived_field-name parse_float p sf name optional d =
    enum_tag-name sf.tags (type_tag sf.tags (derived_base p sf name d))
    ∙ type_tag-name sf.tags (derived_base p sf name d)

abbrev pub HasKey : Text → Map Value → Type 0
HasKey k m = lookup k m ≢ none

-- The name of the field in the contract
abbrev pub external : StructField → Text
external sf = (parse_sokel_tag sf.name sf.tags).0

put-HasKey : (k j : Text) (x : Value) (m : Map Value) → HasKey k (put j x m) → HasKey k m ⊎ (k ≡ j)
put-HasKey k j x m h = elim (Bool-cases (same j k)) [
  | inl e ↦ inr (sym ((same_iff j k).0 e))
  | inr e ↦ inl (λ q. h (lookup-put j k x m ∙ rw e q))
]

put_field-HasKey :
    (k : Text) (sf : StructField) (v : GoValue) (x : Value) (m : Map Value)
    → HasKey k (put_field sf v x m)
    → HasKey k m ⊎ ((sf.exported ≡ true) × (k ≡ external sf))
put_field-HasKey k sf v x m h = elim (Bool-cases (not sf.exported || is_nil_value v)) [
  | inl e ↦ inl (λ q. h (rw e q))
  | inr e ↦ elim (put-HasKey k (external sf) x m (λ q. h (rw e q))) [
    | inl old ↦ inl old
    | inr q ↦ inr (ground arith, q)
  ]
]

then_some_inverse :
    (o : Option Derived) (r : Option Fields) (f : Derived → Fields → Fields) (fs : Fields)
    → then_some o (λ d. then_some r (λ rest. some (f d rest))) ≡ some fs
    → (d : Derived) × ((rest : Fields) × ((r ≡ some rest) × (fs ≡ f d rest)))
then_some_inverse none r f fs e = absurd (ground arith)
then_some_inverse (some d) none f fs e = absurd (ground arith)
then_some_inverse (some d) (some rest) f fs e = (d, (rest, (refl, ground arith)))

named_or_dash :
    (names : List Text) (k name : Text)
    → k ≡ name
    → (name ≢ codes "-" → In name names)
    → In k names ⊎ (k ≡ codes "-")
named_or_dash names k name is own = elim (Bool-cases (same name (codes "-"))) [
  | inl dash ↦ inr (is ∙ (same_iff name (codes "-")).0 dash)
  | inr other ↦ inl (rw is (own (λ q. ground (arith, same_iff name (codes "-")))))
]

module _ (parse_float : Text → Option Text) (p : Package) (rec : GoType → Option Derived) where
  -- What the derivation of the first field adds to that of the others
  abbrev Adds : StructField → Fields → Fields → Type 0
  Adds sf fs rest =
      ((k : Text) → In k (names_of rest) → In k (names_of fs))
      × (sf.exported ≡ true → external sf ≢ codes "-" → In (external sf) (names_of fs))

  derive_each-Adds :
      (sf : StructField) (sfs : List StructField) (fs : Fields)
      → derive_each parse_float p rec (sf ∷ sfs) ≡ some fs
      → (rest : Fields) × ((derive_each parse_float p rec sfs ≡ some rest) × Adds sf fs rest)
  unfolding derive_each
  derive_each-Adds sf sfs fs e =
      elim (Bool-cases (not sf.exported || same (external sf) (codes "-"))) [
        | inl skip ↦
            let q : derive_each parse_float p rec sfs ≡ some fs = rw skip at e in
            (
              fs,
              (
                q,
                (
                  (λ k m. m),
                  (λ ex dash. absurd (ground (arith, same_iff (external sf) (codes "-")))),
                ),
              ),
            )
        | inr keep ↦
            let optional = (parse_sokel_tag sf.name sf.tags).1 in
            let name = external sf in
            let (d, (rest, (q, is))) =
              then_some_inverse (rec sf.go_type) (derive_each parse_float p rec sfs)
                (λ d r. and_field (derived_field parse_float p sf name optional d) r) fs
                (rw keep at e) in
            let named = derived_field-name parse_float p sf name optional d in
            let kept : (k : Text) → In k (names_of rest) → In k (names_of fs) =
              λ k m. rw is (inr m) in
            let own : In (external sf) (names_of fs) = rw is (inl (sym named)) in
            (rest, (q, (kept, (λ ex dash. own))))
      ]

  -- The loops on the two sides
  each_HasKey :
      (handed_on : GoValue → Value) (k : Text) (fvs : FieldValues) (m : Map Value) (fs : Fields)
      → derive_each parse_float p rec (declared_as fvs) ≡ some fs
      → HasKey k (struct_fields_to_map handed_on p fvs m)
      → HasKey k m ⊎ (In k (names_of fs) ⊎ (k ≡ codes "-"))
  unfolding struct_fields_to_map
  each_HasKey handed_on k no_field_values m fs e h = inl h
  each_HasKey handed_on k (field_value sf v fvs) m fs e h =
      let (rest, (q, (more, own))) = derive_each-Adds sf (declared_as fvs) fs e in
      let x = sokel_value handed_on p v in
      elim (each_HasKey handed_on k fvs (put_field sf v x m) rest q h) [
        | inr (inl there) ↦ inr (inl (more k there))
        | inr (inr dash) ↦ inr (inr dash)
        | inl now ↦ elim (put_field-HasKey k sf v x m now) [
          | inl old ↦ inl old
          | inr (ex, is) ↦ inr (named_or_dash (names_of fs) k (external sf) is (own ex))
        ]
      ]

abbrev HasDash : Fields → Type 0
HasDash fs = In (codes "-") (names_of fs)

-- The derivation gives no field the name `-`.
no_dash :
    (parse_float : Text → Option Text) (p : Package) (rec : GoType → Option Derived)
    (sfs : List StructField) (fs : Fields)
    → derive_each parse_float p rec sfs ≡ some fs
    → ¬ HasDash fs
unfolding derive_each
no_dash parse_float p rec [] fs e m = let q : fs ≡ no_fields = ground arith in rw q at m
no_dash parse_float p rec (sf ∷ sfs) fs e m =
    elim (Bool-cases (not sf.exported || same (external sf) (codes "-"))) [
      | inl skip ↦ no_dash parse_float p rec sfs fs (rw skip at e) m
      | inr keep ↦
          let optional = (parse_sokel_tag sf.name sf.tags).1 in
          let name = external sf in
          let (d, (rest, (q, is))) =
            then_some_inverse (rec sf.go_type) (derive_each parse_float p rec sfs)
              (λ d r. and_field (derived_field parse_float p sf name optional d) r) fs
              (rw keep at e) in
          let named = derived_field-name parse_float p sf name optional d in
          elim (rw is at m) [
            | inl here ↦ ground (arith, same_iff name (codes "-"))
            | inr there ↦ no_dash parse_float p rec sfs rest q there
          ]
    ]

put_keeps : (k j : Text) (x : Value) (m : Map Value) → HasKey k m → HasKey k (put j x m)
put_keeps k j x m h e = ground (arith, lookup-put j k x m)

put_field_keeps :
    (k : Text) (sf : StructField) (v : GoValue) (x : Value) (m : Map Value)
    → HasKey k m
    → HasKey k (put_field sf v x m)
put_field_keeps k sf v x m h = elim (Bool-cases (not sf.exported || is_nil_value v)) [
  | inl skip ↦ rw skip h
  | inr keep ↦ rw keep (put_keeps k (external sf) x m h)
]

keeps_key :
    (handed_on : GoValue → Value) (p : Package) (k : Text) (fvs : FieldValues) (m : Map Value)
    → HasKey k m
    → HasKey k (struct_fields_to_map handed_on p fvs m)
unfolding struct_fields_to_map
keeps_key handed_on p k no_field_values m h = h
keeps_key handed_on p k (field_value sf v fvs) m h =
    let x = sokel_value handed_on p v in
    keeps_key handed_on p k fvs (put_field sf v x m) (put_field_keeps k sf v x m h)

-- An exported field with the name `-` in its tag has a value that is not nil.
abbrev pub SendsDash : FieldValues → Type 0
SendsDash no_field_values = ⊥
SendsDash (field_value sf v fvs) =
    ((sf.exported ≡ true) × ((is_nil_value v ≡ false) × (external sf ≡ codes "-"))) ⊎ SendsDash fvs

dash-HasKey :
    (handed_on : GoValue → Value) (p : Package) (fvs : FieldValues) (m : Map Value)
    → SendsDash fvs
    → HasKey (codes "-") (struct_fields_to_map handed_on p fvs m)
unfolding struct_fields_to_map
dash-HasKey handed_on p no_field_values m h = absurd h
dash-HasKey handed_on p (field_value sf v fvs) m (inr h) =
    dash-HasKey handed_on p fvs (put_field sf v (sokel_value handed_on p v) m) h
dash-HasKey handed_on p (field_value sf v fvs) m (inl (ex, (has, dash))) =
    let x = sokel_value handed_on p v in
    let there : HasKey (codes "-") (put_field sf v x m) =
      rw (ex, has, dash)
        (λ e.
          ground
            (arith, lookup-put (codes "-") (codes "-") x m, same_iff (codes "-") (codes "-"))) in
    keeps_key handed_on p (codes "-") fvs (put_field sf v x m) there

-- Every variable that is made of an output struct has the name of a field of the contract that is
-- derived from the type of the struct, or the name `-`.
pub struct_to_vars-derive_fields :
    (handed_on : GoValue → Value) (parse_float : Text → Option Text) (p : Package) (n i : ℕ)
    (fvs : FieldValues) (fs : Fields) (m : Map Value) (k : Text)
    → declared_as fvs ≡ p.struct_fields i
    → derive_fields parse_float p n (struct_type i) ≡ some fs
    → struct_to_vars handed_on p (struct_value i fvs) ≡ some m
    → HasKey k m
    → In k (names_of fs) ⊎ (k ≡ codes "-")
unfolding derive_fields derive_struct derive_kind strip kind_of struct_to_vars lookup
struct_to_vars-derive_fields handed_on parse_float p n i fvs fs m k typed derived made has =
    let rec = field_type_seen parse_float p n (i ∷ []) in
    let q : derive_each parse_float p rec (declared_as fvs) ≡ some fs = rw typed derived in
    let same_map : struct_fields_to_map handed_on p fvs [] ≡ m = ground arith in
    elim (each_HasKey parse_float p rec handed_on k fvs [] fs q (rw same_map has)) [
      | inl old ↦ absurd (old refl)
      | inr h ↦ h
    ]

-- An exported field with the name `-` whose value is not nil is sent as a variable with that name,
-- which no field of the derived contract has.
pub struct_to_vars-dash :
    (handed_on : GoValue → Value) (parse_float : Text → Option Text) (p : Package) (n i : ℕ)
    (fvs : FieldValues) (fs : Fields) (m : Map Value)
    → declared_as fvs ≡ p.struct_fields i
    → derive_fields parse_float p n (struct_type i) ≡ some fs
    → struct_to_vars handed_on p (struct_value i fvs) ≡ some m
    → SendsDash fvs
    → HasKey (codes "-") m × ¬ In (codes "-") (names_of fs)
unfolding derive_fields derive_struct derive_kind strip kind_of struct_to_vars
struct_to_vars-dash handed_on parse_float p n i fvs fs m typed derived made h =
    let rec = field_type_seen parse_float p n (i ∷ []) in
    let same_map : struct_fields_to_map handed_on p fvs [] ≡ m = ground arith in
    (
      rw (← same_map) (dash-HasKey handed_on p fvs [] h),
      no_dash parse_float p rec (p.struct_fields i) fs derived,
    )
