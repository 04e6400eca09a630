-- ===== src/Sokel/Identity.antt =====
-- sokel/identity.go: the id of a replica.
pub mod Restarts
use sokel_plugin_sdk.Base.{
  ℕ, ◌+◌, ◌/◌, ◌%◌, Text, codes, Bool, true, false, not, Option, none, some, List, [], ◌∷◌, ◌++◌,
  Map, lookup, put, ltb, is_empty, trim_space, if◌then◌else◌,
}

-- What a start of the process finds: the variable `SOKEL_INSTANCE_ID`, the host name, four random
-- bytes, the process id in decimal, and whether files can be written.
pub record Start : Type 0 where
  pub instance_id : Text
  pub host : Text
  pub random : Text
  pub pid : Text
  pub writable : Bool

hex_digit : ℕ → ℕ
hex_digit n = if ltb n 10 then b'0' + n else 87 + n

-- `hex.EncodeToString`
unfoldable pub hex_encode : Text → Text
unfolding hex_digit
hex_encode [] = []
hex_encode (b ∷ bs) = hex_digit (b / 16) ∷ hex_digit (b % 16) ∷ hex_encode bs

-- The name of the file; `fingerprint` is the start of the hash of the token, in hexadecimal.
unfoldable pub id_file : (Text → Text) → Text → Text
id_file fingerprint token =
    if is_empty token
    then codes ".sokel-instance-id"
    else codes ".sokel-instance-id" ++ (codes "." ++ fingerprint token)

-- The id in a file, empty if there is none.
stored_id : Option Text → Text
stored_id none = []
stored_id (some content) = trim_space content

unfoldable pub fresh_id : Start → Text
unfolding hex_encode
fresh_id s = s.host ++ (b'-' ∷ hex_encode s.random)

-- `files` are the files of the working directory; the result is the id and the files after.
unfoldable pub stable_instance_id : (Text → Text) → Start → Text → Map Text → Text × Map Text
unfolding stored_id fresh_id
stable_instance_id fingerprint s token files =
    if not (is_empty (trim_space s.instance_id))
    then (trim_space s.instance_id, files)
    else if not (is_empty (stored_id (lookup (id_file fingerprint token) files)))
    then (stored_id (lookup (id_file fingerprint token) files), files)
    else if s.writable
    then (fresh_id s, put (id_file fingerprint token) (fresh_id s ++ b'\n' ∷ []) files)
    else (s.host ++ (b'-' ∷ s.pid), files)
