-- ===== src/Gen/Icons.antt =====
-- internal/gen/icon.go: the value of `plugin.icon`.
use sokel_plugin_sdk.Base.{
  Text, codes, same, has_prefix, Bool, ◌&&◌, ◌||◌, Option, none, some, [], ◌∷◌, is_empty,
  if◌then◌else◌,
}
use sokel_plugin_sdk.Gen.Patterns.{is_brand_name}
use sokel_plugin_sdk.Gen.Strings.{to_lower, contains, clean_relative, extension}
use sokel_plugin_sdk.Gen.Problem.{Problem, invalid_icon}

unfoldable pub icon_is_brand : Text → Bool
icon_is_brand icon = has_prefix icon (codes "brand:")

abbrev after : Text → Text → Text
after [] s = s
after (b ∷ p) [] = []
after (b ∷ p) (c ∷ s) = after p s

-- `brandIconRe`
unfoldable is_brand_icon : Text → Bool
unfolding icon_is_brand is_brand_name
is_brand_icon icon = icon_is_brand icon && is_brand_name (after (codes "brand:") icon)

unfoldable is_outside : Text → Bool
unfolding clean_relative contains
is_outside icon =
    let clean = clean_relative icon in
    has_prefix icon (codes "/")
    || (same clean (codes "..") || (has_prefix clean (codes "../") || contains icon (codes "\\")))

unfoldable has_icon_extension : Text → Bool
unfolding extension to_lower
has_icon_extension icon =
    let ext = to_lower (extension icon) in same ext (codes ".svg") || same ext (codes ".png")

-- The error is that of the value, whose text the messages show.
unfoldable pub check_icon_syntax : Text → Option Problem
unfolding icon_is_brand is_brand_icon is_outside has_icon_extension
check_icon_syntax icon =
    if is_empty icon
    then none
    else if icon_is_brand icon
    then (if is_brand_icon icon then none else some (invalid_icon icon))
    else if contains icon (codes "://") || has_prefix icon (codes "data:")
    then some (invalid_icon icon)
    else if is_outside icon
    then some (invalid_icon icon)
    else if has_icon_extension icon
    then none
    else some (invalid_icon icon)
