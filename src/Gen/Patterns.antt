-- ===== src/Gen/Patterns.antt =====
-- internal/gen/manifest.go: the regular expressions of the declaration, as automata on bytes.
use sokel_plugin_sdk.Base.{
  ℕ, Text, Bool, true, false, not, zero, suc, ◌&&◌, ◌||◌, [], ◌∷◌, all, is_empty, leb, ◌==◌,
  if◌then◌else◌,
}

unfoldable pub is_lower_letter : ℕ → Bool
is_lower_letter c = leb b'a' c && leb c b'z'

unfoldable pub is_upper_letter : ℕ → Bool
is_upper_letter c = leb b'A' c && leb c b'Z'

unfoldable pub is_number : ℕ → Bool
is_number c = leb b'0' c && leb c b'9'

unfoldable pub is_letter : ℕ → Bool
unfolding is_lower_letter is_upper_letter
is_letter c = is_lower_letter c || is_upper_letter c

-- `[a-z0-9_]`
unfoldable pub is_op_char : ℕ → Bool
unfolding is_lower_letter is_number
is_op_char c = (is_lower_letter c || is_number c) || c == b'_'

-- `[a-zA-Z0-9_]`
unfoldable pub is_field_char : ℕ → Bool
unfolding is_letter is_number
is_field_char c = (is_letter c || is_number c) || c == b'_'

-- `opIDRe`
unfoldable pub is_op_id : Text → Bool
unfolding is_lower_letter
is_op_id [] = false
is_op_id (c ∷ s) = is_lower_letter c && all is_op_char s

-- `fieldIDRe`
unfoldable pub is_field_id : Text → Bool
unfolding is_letter
is_field_id [] = false
is_field_id (c ∷ s) = (is_letter c || c == b'_') && all is_field_char s

-- `capIDRe`; the first argument says that a segment has begun.
unfoldable pub is_cap_rest : Bool → Text → Bool
unfolding is_lower_letter is_op_char
is_cap_rest begun [] = begun
is_cap_rest true (c ∷ s) = elim (is_op_char c) [
  | true ↦ is_cap_rest true s
  | false ↦ elim (c == b'/') [ true ↦ is_cap_rest false s | false ↦ false ]
]
is_cap_rest false (c ∷ s) = is_lower_letter c && is_cap_rest true s

unfoldable pub is_cap_id : Text → Bool
unfolding is_cap_rest
is_cap_id s = is_cap_rest false s

-- `orgIDRe`
unfoldable pub is_org_id : Text → Bool
unfolding is_lower_letter is_number
is_org_id [] = false
is_org_id (c ∷ s) =
    is_lower_letter c && all (λ d. (is_lower_letter d || is_number d) || d == b'-') s

-- `[0-9A-Za-z.-]`
unfoldable is_prerelease_char : ℕ → Bool
unfolding is_letter is_number
is_prerelease_char c = (is_letter c || is_number c) || (c == b'.' || c == b'-')

-- The place in `versionRe`: before a component's first digit or within it, with the components
-- that are still to come.
unfoldable is_version_rest : Bool → ℕ → Text → Bool
unfolding is_number is_prerelease_char
is_version_rest within left [] = within && left == 0
is_version_rest within left (c ∷ s) = elim (is_number c) [
  | true ↦ is_version_rest true left s
  | false ↦ elim left [
    | zero ↦ within && (c == b'-' && (not (is_empty s) && all is_prerelease_char s))
    | suc n ↦ elim (within && c == b'.') [ true ↦ is_version_rest false n s | false ↦ false ]
  ]
]

-- `versionRe`
unfoldable pub is_version : Text → Bool
unfolding is_version_rest
is_version [] = false
is_version (c ∷ s) =
    if c == b'v' then is_version_rest false 2 s else is_version_rest false 2 (c ∷ s)

-- `brandIconRe`, after the prefix `brand:`
unfoldable pub is_brand_name : Text → Bool
unfolding is_lower_letter is_number
is_brand_name [] = false
is_brand_name (c ∷ s) =
    (is_lower_letter c || is_number c)
    && all (λ d. (is_lower_letter d || is_number d) || d == b'-') s

-- `fromPathRe`; the first argument says that a segment has begun.
unfoldable is_from_rest : Bool → Text → Bool
unfolding is_field_char
is_from_rest begun [] = begun
is_from_rest begun (c ∷ s) = elim (is_field_char c || c == b'-') [
  | true ↦ is_from_rest true s
  | false ↦ elim (begun && c == b'.') [ true ↦ is_from_rest false s | false ↦ false ]
]

unfoldable pub is_from_path : Text → Bool
unfolding is_from_rest
is_from_path s = is_from_rest false s
