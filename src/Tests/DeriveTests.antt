-- ===== src/Tests/DeriveTests.antt =====
-- contract/contract.go: types of small packages.
use sokel_plugin_sdk.Base.{
  put, Map, inr, ◌⊎◌, same, index, trim_space, ℕ, Text, codes, true, false, Option, none, some,
  List, [], ◌∷◌, In, ◌<◌, ◌≡◌, refl, arith, inl, lookup,
}
use sokel_plugin_sdk.Contract.Vars.{
  GoValue, FieldValues, other_value, field_value, no_field_values, struct_value, struct_to_vars,
}
use sokel_plugin_sdk.Contract.Vars.Keys.{
  HasKey, SendsDash, names_of, struct_to_vars-derive_fields, struct_to_vars-dash,
}
use mathlib.Core.Path.{subst}
use sokel_plugin_sdk.Contract.Field.{
  Value, str, null, and_field, t_string, Fields, t_json, type_of, no_fields, no_value_type,
}
use sokel_plugin_sdk.Contract.GoTypes.{
  GoType, StructField, Package, strip, kind_of, bool_type, int_type, float_type, string_type,
  interface_type, pointer, slice, array_type, map_type, struct_type, defined, other_type,
}
use sokel_plugin_sdk.Contract.Tags.{parse_sokel_tag, to_snake}
use sokel_plugin_sdk.Contract.Derive.{Derived, derive_fields, derived_field, field_type_seen}
use sokel_plugin_sdk.Contract.Derive.Ends.{IsTame, derive_fields_total, field_type_seen-map}
use sokel_plugin_sdk.Contract.Derive.Explained.{IsExplained, derived_field-IsExplained}

-- `type Block struct { ID string; Blocks []*Block }` and `type M map[string]M`
abbrev block_fields : List StructField
block_fields =
    record { name = codes "ID"; exported = true; tags = []; go_type = string_type }
    ∷ record {
      name = codes "Blocks";
      exported = true;
      tags = [];
      go_type = slice (pointer (struct_type 0));
    }
    ∷ []

abbrev blocks : Package
blocks = record {
  struct_fields = λ i. block_fields;
  underlying = λ i. map_type string_type (defined i);
  is_file_ref = λ t. false;
}

-- No number is read from a tag.
abbrev no_float : Text → Option Text
no_float s = none

-- The types that occur in `Block`
abbrev Occurs : GoType → Type 0
Occurs string_type = Unit
Occurs (struct_type i) = i ≡ 0
Occurs (pointer t) = Occurs t
Occurs (slice t) = Occurs t
Occurs bool_type = ⊥
Occurs (int_type k) = ⊥
Occurs (float_type k) = ⊥
Occurs interface_type = ⊥
Occurs (array_type t) = ⊥
Occurs (map_type k t) = ⊥
Occurs (defined i) = ⊥
Occurs other_type = ⊥

struct_occurs :
    (t : GoType) (i : ℕ) → Occurs t → kind_of blocks (strip t) ≡ struct_type i → In i (0 ∷ [])
unfolding strip kind_of
struct_occurs string_type i h e = absurd (ground arith)
struct_occurs (struct_type j) i h e = inl (ground (arith, h))
struct_occurs (pointer t) i h e = struct_occurs t i h e
struct_occurs (slice t) i h e = absurd (ground arith)
struct_occurs bool_type i h e = absurd h
struct_occurs (int_type k) i h e = absurd h
struct_occurs (float_type k) i h e = absurd h
struct_occurs interface_type i h e = absurd h
struct_occurs (array_type t) i h e = absurd h
struct_occurs (map_type k t) i h e = absurd h
struct_occurs (defined j) i h e = absurd h
struct_occurs other_type i h e = absurd h

slice_occurs : (t el : GoType) → Occurs t → kind_of blocks (strip t) ≡ slice el → Occurs el
unfolding strip kind_of
slice_occurs string_type el h e = absurd (ground arith)
slice_occurs (struct_type j) el h e = absurd (ground arith)
slice_occurs (pointer t) el h e = slice_occurs t el h e
slice_occurs (slice t) el h e = let q : t ≡ el = ground arith in subst Occurs q h
slice_occurs bool_type el h e = absurd h
slice_occurs (int_type k) el h e = absurd h
slice_occurs (float_type k) el h e = absurd h
slice_occurs interface_type el h e = absurd h
slice_occurs (array_type t) el h e = absurd h
slice_occurs (map_type k t) el h e = absurd h
slice_occurs (defined j) el h e = absurd h
slice_occurs other_type el h e = absurd h

array_occurs : (t el : GoType) → Occurs t → kind_of blocks (strip t) ≡ array_type el → Occurs el
unfolding strip kind_of
array_occurs string_type el h e = absurd (ground arith)
array_occurs (struct_type j) el h e = absurd (ground arith)
array_occurs (pointer t) el h e = array_occurs t el h e
array_occurs (slice t) el h e = absurd (ground arith)
array_occurs bool_type el h e = absurd h
array_occurs (int_type k) el h e = absurd h
array_occurs (float_type k) el h e = absurd h
array_occurs interface_type el h e = absurd h
array_occurs (array_type t) el h e = absurd h
array_occurs (map_type k t) el h e = absurd h
array_occurs (defined j) el h e = absurd h
array_occurs other_type el h e = absurd h

map_occurs :
    (t k' el : GoType) → Occurs t → kind_of blocks (strip t) ≡ map_type k' el → Occurs el × (0 < 0)
unfolding strip kind_of
map_occurs string_type k' el h e = absurd (ground arith)
map_occurs (struct_type j) k' el h e = absurd (ground arith)
map_occurs (pointer t) k' el h e = map_occurs t k' el h e
map_occurs (slice t) k' el h e = absurd (ground arith)
map_occurs bool_type k' el h e = absurd h
map_occurs (int_type k) k' el h e = absurd h
map_occurs (float_type k) k' el h e = absurd h
map_occurs interface_type k' el h e = absurd h
map_occurs (array_type t) k' el h e = absurd h
map_occurs (map_type k t) k' el h e = absurd h
map_occurs (defined j) k' el h e = absurd h
map_occurs other_type k' el h e = absurd h

blocks-IsTame : IsTame blocks Occurs (0 ∷ []) (λ t. 0) 1
blocks-IsTame = record {
  structs = struct_occurs;
  slices = slice_occurs;
  arrays = array_occurs;
  maps = map_occurs;
  bounded = λ i m. ((tt, omega arith), ((refl, omega arith), tt));
}

derive_fields_total_example :
    (fs : Fields) × (derive_fields no_float blocks 1 (struct_type 0) ≡ some fs)
derive_fields_total_example =
    derive_fields_total no_float blocks Occurs (0 ∷ []) (λ t. 0) 1 blocks-IsTame 1 (struct_type 0)
      refl (omega arith)

field_type_seen-map_example : field_type_seen no_float blocks 100 [] (defined 0) ≡ none
field_type_seen-map_example = field_type_seen-map no_float blocks 0 100 [] refl refl

abbrev free : StructField
free = record { name = codes "Extra"; exported = true; tags = []; go_type = interface_type }

abbrev free_type : Derived
free_type = record { param_type = t_json; fields = no_fields; value_type = no_value_type }

free_json : type_of (derived_field no_float blocks free (codes "extra") false free_type) ≡ t_json
unfolding derived_field lookup
free_json = refl

derived_field-IsExplained_example :
    IsExplained (derived_field no_float blocks free (codes "extra") false free_type)
derived_field-IsExplained_example =
    derived_field-IsExplained no_float blocks free (codes "extra") false free_type free_json

http_code : to_snake (codes "HTTPCode") ≡ codes "http_code"
unfolding to_snake
http_code = refl

-- `type Page struct { Body string; Note string `sokel:"-"` }`
abbrev body : StructField
body = record { name = codes "Body"; exported = true; tags = []; go_type = string_type }

abbrev note : StructField
note = record {
  name = codes "Note";
  exported = true;
  tags = (codes "sokel", codes "-") ∷ [];
  go_type = string_type;
}

abbrev pages : Package
pages = record {
  struct_fields = λ i. body ∷ note ∷ [];
  underlying = λ i. string_type;
  is_file_ref = λ t. false;
}

abbrev page : FieldValues
page =
    field_value body (other_value string_type (str (codes "x")))
      (field_value note (other_value string_type (str (codes "y"))) no_field_values)

abbrev json_of : GoValue → Value
json_of v = elim v [ other_value t x ↦ x | _ ↦ null ]

abbrev page_field : Fields
page_field =
    and_field
      (derived_field no_float pages body (codes "body") false
        (record { param_type = t_string; fields = no_fields; value_type = no_value_type }))
      no_fields

abbrev page_vars : Map Value
page_vars = (codes "body", str (codes "x")) ∷ (codes "-", str (codes "y")) ∷ []

page_fields : derive_fields no_float pages 1 (struct_type 0) ≡ some page_field
unfolding derive_fields same index trim_space
page_fields = refl

page_sent : struct_to_vars json_of pages (struct_value 0 page) ≡ some page_vars
unfolding struct_to_vars put same index trim_space
page_sent = refl

body_HasKey : HasKey (codes "body") page_vars
unfolding lookup same
body_HasKey = λ e. ground arith

note_SendsDash : SendsDash page
unfolding parse_sokel_tag index same trim_space
note_SendsDash = inr (inl (refl, (refl, refl)))

struct_to_vars-derive_fields_example :
    In (codes "body") (names_of page_field) ⊎ (codes "body" ≡ codes "-")
struct_to_vars-derive_fields_example =
    struct_to_vars-derive_fields json_of no_float pages 1 0 page page_field page_vars (codes "body")
      refl page_fields page_sent body_HasKey

struct_to_vars-dash_example : HasKey (codes "-") page_vars × ¬ In (codes "-") (names_of page_field)
struct_to_vars-dash_example =
    struct_to_vars-dash json_of no_float pages 1 0 page page_field page_vars refl page_fields
      page_sent note_SendsDash
