-- ===== src/Sokel/Sources/Signature.antt =====
-- What the signatures of `fieldsSig` in sokel/event.go tell apart.
use sokel_plugin_sdk.Base.{
  ℕ, Text, same, same_iff, Option, none, some, List, [], ◌∷◌, ◌++◌, Map, lookup, index, All, All-In,
  In, ◌≡◌, ◌≢◌, refl, ap, sym, ◌∙◌, arith, Bool-cases, inl, inr,
}
use sokel_plugin_sdk.Sokel.Sources.{
  CredEntry, text_lt, insert_sorted, sort_texts, keys, signature_lines, fields_sig,
}

abbrev pub Lacks : ℕ → Text → Type 0
Lacks x s = All (λ b. b ≢ x) s

-- No key holds `=`, and no value holds a newline.
abbrev IsClean : Map Text → Type 0
IsClean m = All (λ e. Lacks b'=' e.0 × Lacks b'\n' e.1) m

-- A text up to the first separator is determined.
pub split_at :
    (x : ℕ) (a b : Text) {s t : Text}
    → Lacks x a
    → Lacks x b
    → a ++ (x ∷ s) ≡ b ++ (x ∷ t)
    → (a ≡ b) × (s ≡ t)
split_at x [] [] h k e = ground arith
split_at x [] (c ∷ b) h k e = absurd (ground arith)
split_at x (c ∷ a) [] h k e = absurd (ground arith)
split_at x (c ∷ a) (d ∷ b) {s} {t} h k e =
    let (p, q) = split_at x a b {s = s} {t = t} h.1 k.1 (ground arith) in (ground arith, q)

append-ne-nil : (x : ℕ) (a s : Text) → a ++ (x ∷ s) ≢ []
append-ne-nil x [] s e = cc
append-ne-nil x (c ∷ a) s e = cc

index-Lacks : (k : Text) (m : Map Text) → IsClean m → Lacks b'\n' (index [] k m)
unfolding index
index-Lacks k [] h = tt
index-Lacks k ((j, v) ∷ m) (p, h) = elim (Bool-cases (same j k)) [
  | inl y ↦ rw y p.1
  | inr n ↦ rw n (index-Lacks k m h)
]

-- Equal signatures come from equal keys with equal values.
signature_lines-injective :
    (m n : Map Text) (ks js : List Text)
    → IsClean m
    → IsClean n
    → All (Lacks b'=') ks
    → All (Lacks b'=') js
    → signature_lines m ks ≡ signature_lines n js
    → (ks ≡ js) × All (λ k. index [] k m ≡ index [] k n) ks
unfolding signature_lines
signature_lines-injective m n [] [] cm cn ck cj e = (refl, tt)
signature_lines-injective m n [] (j ∷ js) cm cn ck cj e = absurd (append-ne-nil _ j _ (sym e))
signature_lines-injective m n (k ∷ ks) [] cm cn ck cj e = absurd (append-ne-nil _ k _ e)
signature_lines-injective m n (k ∷ ks) (j ∷ js) cm cn ck cj e =
    let (key, after) = split_at b'=' k j ck.0 cj.0 e in
    let (val, rest) =
      split_at b'\n' (index [] k m) (index [] j n) (index-Lacks k m cm) (index-Lacks j n cn)
        after in
    let (more, vals) = signature_lines-injective m n ks js cm cn ck.1 cj.1 rest in
    (cc, (ground arith, vals))

In-insert_sorted : (k j : Text) (ks : List Text) → In k (insert_sorted j ks) → In k (j ∷ ks)
unfolding insert_sorted
In-insert_sorted k j [] h = h
In-insert_sorted k j (i ∷ ks) h = ground (arith, In-insert_sorted k j ks)

insert_sorted-In : (k j : Text) (ks : List Text) → In k (j ∷ ks) → In k (insert_sorted j ks)
unfolding insert_sorted
insert_sorted-In k j [] h = h
insert_sorted-In k j (i ∷ ks) h = ground (arith, insert_sorted-In k j ks)

In-sort_texts : (k : Text) (ks : List Text) → In k (sort_texts ks) → In k ks
unfolding sort_texts
In-sort_texts k [] h = h
In-sort_texts k (j ∷ ks) h = elim (In-insert_sorted k j (sort_texts ks) h) [
  | inl e ↦ inl e
  | inr i ↦ inr (In-sort_texts k ks i)
]

sort_texts-In : (k : Text) (ks : List Text) → In k ks → In k (sort_texts ks)
unfolding sort_texts
sort_texts-In k [] h = h
sort_texts-In k (j ∷ ks) (inl e) = insert_sorted-In k j (sort_texts ks) (inl e)
sort_texts-In k (j ∷ ks) (inr i) = insert_sorted-In k j (sort_texts ks) (inr (sort_texts-In k ks i))

All-insert_sorted :
    (P : Text → Type 0) (j : Text) (ks : List Text) → P j → All P ks → All P (insert_sorted j ks)
unfolding insert_sorted
All-insert_sorted P j [] p h = (p, tt)
All-insert_sorted P j (i ∷ ks) p h = elim (Bool-cases (text_lt i j)) [
  | inl y ↦ rw y (h.0, All-insert_sorted P j ks p h.1)
  | inr n ↦ rw n (p, h)
]

All-sort_keys : (m : Map Text) → IsClean m → All (Lacks b'=') (sort_texts (keys m))
unfolding sort_texts keys
All-sort_keys [] h = tt
All-sort_keys ((k, v) ∷ m) (p, h) =
    All-insert_sorted (Lacks b'=') k (sort_texts (keys m)) p.0 (All-sort_keys m h)

lookup_of_In : (k : Text) (m : Map Text) → In k (keys m) → lookup k m ≡ some (index [] k m)
unfolding lookup index keys
lookup_of_In k [] h = absurd h
lookup_of_In k ((j, v) ∷ m) h = ground (arith, same_iff j k, lookup_of_In k m)

In-of_lookup : (k : Text) (v : Text) (m : Map Text) → lookup k m ≡ some v → In k (keys m)
unfolding lookup keys
In-of_lookup k v [] h = absurd (ground arith)
In-of_lookup k v ((j, w) ∷ m) h = ground (arith, same_iff j k, In-of_lookup k v m)

module _ (m n : Map Text) where
  shared_value :
      (k v : Text)
      → sort_texts (keys m) ≡ sort_texts (keys n)
      → All (λ j. index [] j m ≡ index [] j n) (sort_texts (keys m))
      → lookup k m ≡ some v
      → lookup k n ≡ some v
  shared_value k v same_keys vals e =
      let i : In k (keys m) = In-of_lookup k v m e in
      let s : In k (sort_texts (keys m)) = sort_texts-In k (keys m) i in
      let i' : In k (keys n) = In-sort_texts k (keys n) (rw same_keys at s) in
      let val : index [] k m ≡ index [] k n =
        All-In (λ j. index [] j m ≡ index [] j n) k _ vals s in
      lookup_of_In k n i' ∙ (ap some (sym val) ∙ (sym (lookup_of_In k m i) ∙ e))

All-sym :
    (m n : Map Text) (ks : List Text)
    → All (λ j. index [] j m ≡ index [] j n) ks
    → All (λ j. index [] j n ≡ index [] j m) ks
All-sym m n [] h = tt
All-sym m n (k ∷ ks) (p, h) = (sym p, All-sym m n ks h)

same_fields :
    (m n : Map Text) (k : Text) (a b : Option Text)
    → lookup k m ≡ a
    → lookup k n ≡ b
    → ((v : Text) → lookup k m ≡ some v → lookup k n ≡ some v)
    → ((v : Text) → lookup k n ≡ some v → lookup k m ≡ some v)
    → lookup k m ≡ lookup k n
same_fields m n k (some v) b e e' f g = e ∙ sym (f v e)
same_fields m n k none (some w) e e' f g = g w e' ∙ sym e'
same_fields m n k none none e e' f g = e ∙ sym e'

-- Two credentials whose keys hold no `=` and whose values hold no newline have the same signature
-- only if they have the same fields.
pub fields_sig-injective :
    (c d : CredEntry)
    → IsClean c.fields
    → IsClean d.fields
    → fields_sig c ≡ fields_sig d
    → (k : Text) → lookup k c.fields ≡ lookup k d.fields
unfolding fields_sig
fields_sig-injective c d hc hd e k =
    let (same_keys, vals) =
      signature_lines-injective c.fields d.fields (sort_texts (keys c.fields))
        (sort_texts (keys d.fields)) hc hd (All-sort_keys c.fields hc) (All-sort_keys d.fields hd)
        e in
    same_fields c.fields d.fields k _ _ refl refl
      (λ v h. shared_value c.fields d.fields k v same_keys vals h)
      (λ v h.
        shared_value d.fields c.fields k v (sym same_keys)
          (rw same_keys at (All-sym c.fields d.fields _ vals)) h)
