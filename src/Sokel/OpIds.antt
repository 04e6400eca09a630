-- ===== src/Sokel/OpIds.antt =====
-- sokel/sokel.go: the check of a business operation's id.
pub mod Accepted
use sokel_plugin_sdk.Base.{
  ℕ, Text, codes, same, Bool, true, false, not, ◌&&◌, ◌||◌, List, [], ◌∷◌, Result, ok, err, ◌>>◌,
  leb, ◌==◌, if◌then◌else◌,
}

pub data IdPanic : Type 0 where
  empty_id : IdPanic
  reserved_namespace : Text → IdPanic
  invalid_id : Text → IdPanic
  old_auth_name : Text → IdPanic

unfoldable is_lower : ℕ → Bool
is_lower c = leb b'a' c && leb c b'z'

unfoldable is_digit : ℕ → Bool
is_digit c = leb b'0' c && leb c b'9'

-- The loop over the runes; a byte above 127 is refused as its rune is. `later` is `i > 0`.
unfoldable pub check_runes : Text → Bool → Text → Result IdPanic (Unit {0})
unfolding is_lower is_digit
check_runes id later [] = ok tt
check_runes id later (r ∷ rs) =
    if (is_lower r || r == b'_') || (later && is_digit r)
    then check_runes id true rs
    else if r == b'.'
    then err (reserved_namespace id)
    else err (invalid_id id)

unfoldable pub check_old_name : Text → Result IdPanic (Unit {0})
check_old_name id =
    if same id (codes "auth_start") || same id (codes "auth_submit") || same id (codes "auth_poll")
    then err (old_auth_name id)
    else ok tt

unfoldable pub must_business_op_id : Text → Result IdPanic (Unit {0})
unfolding check_runes check_old_name
must_business_op_id [] = err empty_id
must_business_op_id (c ∷ s) = check_runes (c ∷ s) false (c ∷ s) >> check_old_name (c ∷ s)
