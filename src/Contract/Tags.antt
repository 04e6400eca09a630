-- ===== src/Contract/Tags.antt =====
-- contract/contract.go: the tags of a struct field, and the names of fields without a tag.
pub mod Snake
use sokel_plugin_sdk.Base.{
  ℕ, Text, codes, same, trim_space, Bool, true, false, ◌&&◌, ◌||◌, Option, none, some, List, [],
  ◌∷◌, ◌+◌, is_empty, ◌==◌, Map, lookup, index, if◌then◌else◌,
}
use sokel_plugin_sdk.Gen.Patterns.{is_upper_letter, is_lower_letter, is_number}
use sokel_plugin_sdk.Gen.Strings.{split, split_first}
use sokel_plugin_sdk.Contract.Field.{
  Value, null, bool, num, str, ParamType, t_bool, t_number, Choice,
}

unfoldable prev_lower : Option ℕ → Bool
unfolding is_lower_letter is_number
prev_lower none = false
prev_lower (some p) = is_lower_letter p || is_number p

unfoldable prev_upper : Option ℕ → Bool
unfolding is_upper_letter
prev_upper none = false
prev_upper (some p) = is_upper_letter p

unfoldable pub next_lower : Text → Bool
unfolding is_lower_letter
next_lower [] = false
next_lower (n ∷ rs) = is_lower_letter n

-- The loop of `toSnake`, with the rune before.
unfoldable pub snake_from : Option ℕ → Text → Text
unfolding prev_lower prev_upper next_lower is_upper_letter
snake_from prev [] = []
snake_from prev (r ∷ rs) =
    let rest = snake_from (some r) rs in
    if is_upper_letter r
    then (if prev_lower prev || (prev_upper prev && next_lower rs)
        then b'_' ∷ (r + 32) ∷ rest
        else (r + 32) ∷ rest)
    else r ∷ rest

unfoldable pub to_snake : Text → Text
unfolding snake_from
to_snake s = snake_from none s

-- `toSnake` of internal/gen/util.go; `later` is `i > 0`.
unfoldable gen_snake_from : Bool → Text → Text
unfolding is_upper_letter
gen_snake_from later [] = []
gen_snake_from later (r ∷ rs) =
    let rest = gen_snake_from true rs in
    if is_upper_letter r
    then (if later then b'_' ∷ (r + 32) ∷ rest else (r + 32) ∷ rest)
    else r ∷ rest

unfoldable pub gen_to_snake : Text → Text
unfolding gen_snake_from
gen_to_snake s = gen_snake_from false s

abbrev has_optional : List Text → Bool
has_optional [] = false
has_optional (p ∷ ps) = same (trim_space p) (codes "optional") || has_optional ps

-- `sf.Tag.Get(key)`, on the tag as a map
abbrev pub tag_get : Text → Map Text → Text
tag_get key tags = index [] key tags

-- The external name, and whether the tag says that the field is optional.
unfoldable pub parse_sokel_tag : Text → Map Text → Text × Bool
unfolding to_snake split_first
parse_sokel_tag go_name tags =
    let tag = tag_get (codes "sokel") tags in
    let (first, others) = split_first b',' tag in
    if is_empty tag then (to_snake go_name, false) else (
      if is_empty (trim_space first) then to_snake go_name else trim_space first,
      has_optional others,
    )

-- `strconv.ParseBool`, without its error
unfoldable pub parse_bool : Text → Bool
parse_bool s =
    same s (codes "1")
    || (same s (codes "t")
        || (same s (codes "T")
            || (same s (codes "TRUE") || (same s (codes "true") || same s (codes "True")))))

-- `parse_float` is `strconv.ParseFloat`, whose result is a literal of the number.
unfoldable pub coerce_default : (Text → Option Text) → Text → ParamType → Value
unfolding parse_bool
coerce_default parse_float dv t =
    if same t t_bool
    then bool (parse_bool dv)
    else if same t t_number
    then elim (parse_float dv) [ none ↦ str dv | some x ↦ num x ]
    else str dv

-- The parts of a list in a tag that are not blank.
unfoldable tag_parts : List Text → List Text
tag_parts [] = []
tag_parts (p ∷ ps) =
    let rest = tag_parts ps in
    let part = trim_space p in if is_empty part then rest else part ∷ rest

-- The types of a `type` tag
unfoldable pub tag_types : Text → List ParamType
unfolding tag_parts split
tag_types tag = tag_parts (split b',' tag)

-- `strings.Cut(o, "=")`
unfoldable cut_equals : Text → Text × Text
cut_equals [] = ([], [])
cut_equals (c ∷ s) =
    let (before, after) = cut_equals s in if c == b'=' then ([], s) else (c ∷ before, after)

unfoldable choices : List Text → List Choice
unfolding cut_equals
choices [] = []
choices (o ∷ os) =
    let (val, label) = cut_equals o in
    (record { value = trim_space val; label = trim_space label }) ∷ choices os

-- The candidates of an `enum` tag
unfoldable pub tag_choices : Text → List Choice
unfolding choices tag_types
tag_choices tag = choices (tag_types tag)
