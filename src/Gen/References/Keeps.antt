-- ===== src/Gen/References/Keeps.antt =====
-- `walkFields` of internal/gen/manifest.go with the visitor of `resolveGoTypeRefs`.
use mathlib.Core.Path.{subst}
use sokel_plugin_sdk.Base.{
  ℕ, zero, suc, Option, none, some, eq_of_some, List, [], ◌∷◌, length, ◌≡◌, refl, arith,
}
use sokel_plugin_sdk.Gen.Field.{IrVariantHead}
use sokel_plugin_sdk.Gen.References.{
  Cell, Store, and_then, get_at, write, visit_at, walk_from, walk_slice, walk_branches, walk_value,
  below, walk_roots, resolve, refer,
}

-- What the walk that resolves references writes keeps the property.
abbrev pub IsKept : (Store → Type 0) → Type 0
IsKept P =
    (s : Store) (x k : ℕ) (d : Cell)
    → get_at k (s.slices x) ≡ some d
    → P s
    → P (write x k (resolve s d) s)

abbrev pub Keeps : (Store → Type 0) → (Cell → Store → Option Store) → Type 0
Keeps P descend = (c : Cell) (s t : Store) → descend c s ≡ some t → P s → P t

and_then-some :
    {A B : Type 0} (o : Option A) (next : A → Option B) (b : B)
    → and_then o next ≡ some b
    → (a : A) × ((o ≡ some a) × (next a ≡ some b))
and_then-some none next b h = absurd (ground arith)
and_then-some (some a) next b h = (a, (refl, h))

module _ (P : Store → Type 0) (kept : IsKept P) where
  pub visit_at_keeps :
      (descend : Cell → Store → Option Store)
      → Keeps P descend
      → (a i : ℕ) (o : Option Cell) (s t : Store) → get_at i (s.slices a) ≡ o
      → visit_at descend refer a i o s ≡ some t
      → P s
      → P t
  unfolding visit_at refer
  visit_at_keeps descend h a i none s t m e p = subst P (eq_of_some e) p
  visit_at_keeps descend h a i (some c) s t m e p =
      h (resolve s c) (write a i (resolve s c) s) t e (kept s a i c m p)

  walk_from_keeps :
      (descend : Cell → Store → Option Store)
      → Keeps P descend
      → (a i n : ℕ) (s t : Store) → walk_from descend refer a i n s ≡ some t
      → P s
      → P t
  unfolding walk_from
  walk_from_keeps descend h a i zero s t e p = subst P (eq_of_some e) p
  walk_from_keeps descend h a i (suc n) s t e p =
      let (u, (here, rest)) = and_then-some _ (walk_from descend refer a (suc i) n) t e in
      walk_from_keeps descend h a (suc i) n u t rest
        (visit_at_keeps descend h a i (get_at i (s.slices a)) s u refl here p)

  pub walk_slice_keeps :
      (descend : Cell → Store → Option Store)
      → Keeps P descend
      → (a : ℕ) (s t : Store) → walk_slice descend refer a s ≡ some t
      → P s
      → P t
  unfolding walk_slice
  walk_slice_keeps descend h a s t e p = walk_from_keeps descend h a 0 (length (s.slices a)) s t e p

  walk_branches_keeps :
      (descend : Cell → Store → Option Store)
      → Keeps P descend
      → (bs : List (IrVariantHead × ℕ)) (s t : Store) → walk_branches descend refer bs s ≡ some t
      → P s
      → P t
  unfolding walk_branches
  walk_branches_keeps descend h [] s t e p = subst P (eq_of_some e) p
  walk_branches_keeps descend h ((head, a) ∷ bs) s t e p =
      let (u, (here, rest)) =
        and_then-some (walk_slice descend refer a s) (walk_branches descend refer bs) t e in
      walk_branches_keeps descend h bs u t rest (walk_slice_keeps descend h a s u here p)

  walk_value_keeps :
      (descend : Cell → Store → Option Store)
      → Keeps P descend
      → (v : Option ℕ) (s t : Store) → walk_value descend refer v s ≡ some t
      → P s
      → P t
  unfolding walk_value refer
  walk_value_keeps descend h none s t e p = subst P (eq_of_some e) p
  walk_value_keeps descend h (some v) s t e p = h (resolve s (s.values v)) s t e p

  pub below-Keeps : (n : ℕ) → Keeps P (below refer n)
  unfolding below
  below-Keeps zero c s t e p = absurd (ground arith)
  below-Keeps (suc n) c s t e p =
      let (s1, (one, more)) = and_then-some (walk_slice (below refer n) refer c.fields s) _ t e in
      let (s2, (two, three)) =
        and_then-some (walk_branches (below refer n) refer c.branches s1) _ t more in
      walk_value_keeps (below refer n) (below-Keeps n) c.value_type s2 t three (
        walk_branches_keeps (below refer n) (below-Keeps n) c.branches s1 s2 two
          (walk_slice_keeps (below refer n) (below-Keeps n) c.fields s s1 one p))

  pub walk_roots_keeps :
      (n : ℕ) (roots : List ℕ) (s t : Store) → walk_roots refer n roots s ≡ some t → P s → P t
  unfolding walk_roots
  walk_roots_keeps n [] s t e p = subst P (eq_of_some e) p
  walk_roots_keeps n (a ∷ roots) s t e p =
      let (u, (here, rest)) =
        and_then-some (walk_slice (below refer n) refer a s) (walk_roots refer n roots) t e in
      walk_roots_keeps n roots u t rest
        (walk_slice_keeps (below refer n) (below-Keeps n) a s u here p)
