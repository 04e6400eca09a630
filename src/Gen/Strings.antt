-- ===== src/Gen/Strings.antt =====
-- Go's packages strings and path, as internal/gen uses them, on bytes.
use sokel_plugin_sdk.Base.{
  ℕ, Text, codes, same, has_prefix, Bool, false, not, ◌&&◌, ◌||◌, List, [], ◌∷◌, ◌++◌, ◌+◌, map,
  is_empty, ◌==◌, if◌then◌else◌,
}
use sokel_plugin_sdk.Gen.Patterns.{is_upper_letter}

-- `strings.Split(s, sep)` at a separator of one byte: the first part and the others.
unfoldable pub split_first : ℕ → Text → Text × List Text
split_first sep [] = ([], [])
split_first sep (c ∷ s) =
    let (part, parts) = split_first sep s in
    if c == sep then ([], part ∷ parts) else (c ∷ part, parts)

unfoldable pub split : ℕ → Text → List Text
unfolding split_first
split sep s = let (part, parts) = split_first sep s in part ∷ parts

-- `strings.ToLower`, on ASCII
unfoldable pub to_lower : Text → Text
unfolding is_upper_letter
to_lower s = map (λ c. if is_upper_letter c then c + 32 else c) s

-- `strings.Contains(s, sub)`
unfoldable pub contains : Text → Text → Bool
contains [] sub = is_empty sub
contains (c ∷ s) sub = has_prefix (c ∷ s) sub || contains s sub

-- `strings.Contains(s, c)` for one byte
unfoldable pub has_byte : ℕ → Text → Bool
has_byte b [] = false
has_byte b (c ∷ s) = c == b || has_byte b s

unfoldable join_slash : List Text → Text
join_slash [] = []
join_slash (p ∷ ps) = elim ps [ [] ↦ p | q ∷ qs ↦ p ++ (b'/' ∷ join_slash ps) ]

-- One segment of the loop of `path.Clean`, on the segments before it, the last first.
unfoldable clean_step : List Text → Text → List Text
clean_step out seg =
    if is_empty seg || same seg (codes ".")
    then out
    else if same seg (codes "..")
    then elim out [
      | [] ↦ seg ∷ []
      | top ∷ rest ↦ if same top (codes "..") then seg ∷ top ∷ rest else rest
    ]
    else seg ∷ out

unfoldable clean_loop : List Text → List Text → List Text
unfolding clean_step
clean_loop out [] = out
clean_loop out (seg ∷ segs) = clean_loop (clean_step out seg) segs

unfoldable backwards : List Text → List Text → List Text
backwards [] acc = acc
backwards (p ∷ ps) acc = backwards ps (p ∷ acc)

-- `path.Clean` of a path that does not begin with a slash
unfoldable pub clean_relative : Text → Text
unfolding clean_loop backwards join_slash split
clean_relative s =
    let out = join_slash (backwards (clean_loop [] (split b'/' s)) []) in
    if is_empty out then codes "." else out

-- `path.Ext`
unfoldable pub extension : Text → Text
unfolding has_byte
extension [] = []
extension (c ∷ s) =
    let later = extension s in
    if not (is_empty later) then later else if c == b'.' && not (has_byte b'/' s) then c ∷ s else []
