-- ===== src/Gen/Names/Collisions.antt =====
-- `exportName` of internal/gen/types.go on different contract names.
use sokel_plugin_sdk.Base.{
  Text, codes, is_empty, append_assoc, lookup, same, List, [], ◌∷◌, ◌++◌, ◌==◌, if◌then◌else◌, ◌≡◌,
  refl, ap, ◌∙◌, sym, Bool-cases, inl, inr,
}
use sokel_plugin_sdk.Gen.Strings.{split, split_first}
use sokel_plugin_sdk.Gen.Names.{export_part, export_parts, export_name}

split_first-append :
    (s t : Text)
    → ((split_first b'_' (s ++ (b'_' ∷ t))).0 ≡ (split_first b'_' s).0)
      × ((split_first b'_' (s ++ (b'_' ∷ t))).1 ≡ (split_first b'_' s).1 ++ split b'_' t)
unfolding split_first split
split_first-append [] t = (refl, refl)
split_first-append (c ∷ s) t =
    let (first, others) = split_first-append s t in
    elim (Bool-cases (c == b'_')) [
      | inl e ↦ rw e (refl, cc (first, others))
      | inr e ↦ rw e (cc first, others)
    ]

export_parts-append :
    (ps qs : List Text) → export_parts (ps ++ qs) ≡ export_parts ps ++ export_parts qs
unfolding export_parts
export_parts-append [] qs = refl
export_parts-append (p ∷ ps) qs =
    ap (λ r. export_part p ++ r) (export_parts-append ps qs)
    ∙ sym (append_assoc (export_part p) (export_parts ps) (export_parts qs))

-- The parts of a text and of a further part after an underscore.
parts_of :
    (s t : Text)
    → export_parts (split b'_' (s ++ (b'_' ∷ t)))
      ≡ export_parts (split b'_' s) ++ export_parts (split b'_' t)
unfolding split
parts_of s t =
    let (first, others) = split_first-append s t in
    ap export_parts (cc (first, others)) ∙ export_parts-append (split b'_' s) (split b'_' t)

smtp_part : export_parts (split b'_' (codes "smtp")) ≡ export_parts (split b'_' (codes "sql"))
unfolding split export_parts export_part lookup same
smtp_part = refl

-- Every name that ends in the part `smtp` gets the Go name of the one that ends in `sql` in its
-- place.
export_name-smtp : (s : Text) → export_name (s ++ codes "_smtp") ≡ export_name (s ++ codes "_sql")
unfolding export_name
export_name-smtp s =
    let alike : export_parts (split b'_' (s ++ codes "_smtp"))
        ≡ export_parts (split b'_' (s ++ codes "_sql")) =
      parts_of s (codes "smtp")
      ∙ (ap (λ r. export_parts (split b'_' s) ++ r) smtp_part ∙ sym (parts_of s (codes "sql"))) in
    ap (λ name. if is_empty name then codes "Field" else name) alike
