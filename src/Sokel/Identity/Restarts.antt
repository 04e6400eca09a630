-- ===== src/Sokel/Identity/Restarts.antt =====
-- `stableInstanceID` of sokel/identity.go over two starts of the process.
use sokel_plugin_sdk.Base.{
  ℕ, ◌/◌, ◌%◌, Text, true, false, [], ◌∷◌, ◌++◌, Map, lookup, put, lookup-put, same_refl, is_empty,
  is_empty_of_ne, is_space, trim_left, trim_right, trim_space, All, All-append, ◌≡◌, ◌≢◌, refl, ap,
  ◌∙◌, arith, Bool-cases, inl, inr,
}
use sokel_plugin_sdk.Sokel.Identity.{
  Start, hex_digit, hex_encode, id_file, stored_id, fresh_id, stable_instance_id,
}

-- A text without space.
abbrev pub IsSolid : Text → Type 0
IsSolid s = All (λ c. is_space c ≡ false) s

hex_digit-not_space : (n : ℕ) → is_space (hex_digit n) ≡ false
unfolding hex_digit is_space
hex_digit-not_space n = ground arith

hex_encode-IsSolid : (bs : Text) → IsSolid (hex_encode bs)
unfolding hex_encode
hex_encode-IsSolid [] = tt
hex_encode-IsSolid (b ∷ bs) =
    (hex_digit-not_space (b / 16), (hex_digit-not_space (b % 16), hex_encode-IsSolid bs))

dash_not_space : is_space b'-' ≡ false
unfolding is_space
dash_not_space = refl

newline_space : is_space b'\n' ≡ true
unfolding is_space
newline_space = refl

fresh_id-IsSolid : (s : Start) → IsSolid s.host → IsSolid (fresh_id s)
unfolding fresh_id
fresh_id-IsSolid s solid =
    All-append _ s.host (b'-' ∷ hex_encode s.random) solid
      (dash_not_space, hex_encode-IsSolid s.random)

fresh_id-ne-nil : (host rest : Text) → host ++ (b'-' ∷ rest) ≢ []
fresh_id-ne-nil [] rest e = cc
fresh_id-ne-nil (c ∷ host) rest e = cc

trim_right-line : (s : Text) → IsSolid s → trim_right is_space (s ++ b'\n' ∷ []) ≡ s
unfolding trim_right
trim_right-line [] solid = rw newline_space
trim_right-line (c ∷ []) (here, solid) = rw (trim_right, newline_space, here)
trim_right-line (c ∷ d ∷ s) (here, solid) = rw (trim_right-line (d ∷ s) solid)

trim_space-line : (s : Text) → IsSolid s → trim_space (s ++ b'\n' ∷ []) ≡ s
unfolding trim_space trim_left
trim_space-line [] solid = refl
trim_space-line (c ∷ s) (here, solid) = rw here (trim_right-line (c ∷ s) (here, solid))

fresh-not_empty : (s : Start) → is_empty (fresh_id s) ≡ false
unfolding fresh_id
fresh-not_empty s = is_empty_of_ne (fresh_id s) (fresh_id-ne-nil s.host (hex_encode s.random))

-- What a start returns where nothing is stored and the file can be written: the fresh id, and a
-- file from which the next start reads it.
stored_after :
    (s : Start) (file : Text) (files : Map Text)
    → IsSolid s.host
    → stored_id (lookup file (put file (fresh_id s ++ b'\n' ∷ []) files)) ≡ fresh_id s
unfolding stored_id
stored_after s file files solid =
    rw (lookup-put file file (fresh_id s ++ b'\n' ∷ []) files, same_refl file)
      (trim_space-line (fresh_id s) (fresh_id-IsSolid s solid))

start_found :
    (fingerprint : Text → Text) (s : Start) (token : Text) (files : Map Text)
    → is_empty (trim_space s.instance_id) ≡ true
    → is_empty (stored_id (lookup (id_file fingerprint token) files)) ≡ false
    → stable_instance_id fingerprint s token files
      ≡ (stored_id (lookup (id_file fingerprint token) files), files)
unfolding stable_instance_id
start_found fingerprint s token files unset found = rw (unset, found, stable_instance_id)

start_fresh :
    (fingerprint : Text → Text) (s : Start) (token : Text) (files : Map Text)
    → is_empty (trim_space s.instance_id) ≡ true
    → is_empty (stored_id (lookup (id_file fingerprint token) files)) ≡ true
    → s.writable ≡ true
    → stable_instance_id fingerprint s token files
      ≡ (fresh_id s, put (id_file fingerprint token) (fresh_id s ++ b'\n' ∷ []) files)
unfolding stable_instance_id
start_fresh fingerprint s token files unset nothing writable =
    rw (unset, nothing, writable, stable_instance_id)

-- Where no id is set in the environment, the host name has no space, and the file can be written at
-- the first start, a second start with the same token in the same directory has the same id, whatever
-- its host name, its random bytes and its process id are.
pub stable_instance_id-restart :
    (fingerprint : Text → Text) (s t : Start) (token : Text) (files : Map Text)
    → is_empty (trim_space s.instance_id) ≡ true
    → is_empty (trim_space t.instance_id) ≡ true
    → IsSolid s.host
    → s.writable ≡ true
    → (stable_instance_id fingerprint t token (stable_instance_id fingerprint s token files).1).0
      ≡ (stable_instance_id fingerprint s token files).0
stable_instance_id-restart fingerprint s t token files unset unset' solid writable =
    let file = id_file fingerprint token in
    elim (Bool-cases (is_empty (stored_id (lookup file files)))) [
      | inr found ↦
          rw (start_found fingerprint s token files unset found)
            (ap (λ r. r.0) (start_found fingerprint t token files unset' found))
      | inl nothing ↦
          let files' = put file (fresh_id s ++ b'\n' ∷ []) files in
          let kept = stored_after s file files solid in
          rw (start_fresh fingerprint s token files unset nothing writable) (
            ap (λ r. r.0)
              (start_found fingerprint t token files' unset' (rw kept (fresh-not_empty s)))
            ∙ kept)
    ]
