-- ===== src/Gen/References/Ranked.antt =====
-- `resolveGoTypeRefs` of internal/gen/manifest.go on structures that do not refer to themselves.
use sokel_plugin_sdk.Base.{
  ℕ, zero, suc, ◌≤◌, ◌<◌, Option, none, some, List, [], ◌∷◌, length, All, All-map, ◌≡◌, refl, sym,
  ap, ◌∙◌, eq_of_some, arith, inl, inr,
}
use mathlib.Core.Path.{subst}
use sokel_plugin_sdk.Gen.Field.{IrVariantHead}
use sokel_plugin_sdk.Gen.References.{
  Cell, Store, and_then, get_at, write, visit_at, walk_from, walk_slice, walk_branches, walk_value,
  below, walk_roots, resolve, refer,
}
use sokel_plugin_sdk.Gen.References.Keeps.{IsKept}
use sokel_plugin_sdk.Gen.References.Cycles.{resolve-write, resolve_twice, get_at-write}

-- A depth for every slice and for every field behind a pointer
module _ (r q : ℕ → ℕ) where
  abbrev FitsValue : ℕ → Option ℕ → Type 0
  FitsValue n none = Unit
  FitsValue n (some v) = q v < n

  -- What a field refers to is less deep than the number.
  abbrev pub Fits : ℕ → Cell → Type 0
  Fits n c = (r c.fields < n) × (All (λ b. r b.1 < n) c.branches × FitsValue n c.value_type)

  -- Every field, once its reference is resolved, refers to less deep ones only.
  abbrev pub IsRanked : Store → Type 0
  IsRanked s =
      ((a i : ℕ) (c : Cell) → get_at i (s.slices a) ≡ some c → Fits (r a) (resolve s c))
      × ((v : ℕ) → Fits (q v) (resolve s (s.values v)))

  Fits-le : (m n : ℕ) (c : Cell) → m ≤ n → Fits m c → Fits n c
  Fits-le m n c le (f, (b, v)) = (
    omega arith,
    (
      All-map (λ x. r x.1 < m) (λ x. r x.1 < n) c.branches (λ x l. omega arith) b,
      value_le c.value_type v,
    ),
  )
    where
      value_le : (o : Option ℕ) → FitsValue m o → FitsValue n o
      value_le none h = tt
      value_le (some x) h = omega arith

  values-write : (x k : ℕ) (d : Cell) (s : Store) (v : ℕ) → (write x k d s).values v ≡ s.values v
  unfolding write
  values-write x k d s v = refl

  IsRanked-kept : IsKept IsRanked
  IsRanked-kept s x k d m (slices, values) = (
    λ a i c h. elim (get_at-write a i x k (resolve s d) d s m) [
      | inl (ea, ei, new) ↦
          let alike : resolve s d ≡ c = eq_of_some (sym new ∙ h) in
          let there = slices x k d m in
          let again : resolve (write x k (resolve s d) s) c ≡ resolve s d =
            ap (resolve (write x k (resolve s d) s)) (sym alike)
            ∙ (resolve-write x k (resolve s d) (resolve s d) s ∙ resolve_twice s d) in
          subst (λ y. Fits (r a) y) (sym again)
            (subst (λ y. Fits (r y) (resolve s d)) (sym ea) there)
      | inr kept ↦
          subst (λ y. Fits (r a) y) (sym (resolve-write x k (resolve s d) c s))
            (slices a i c (sym kept ∙ h))
    ],
    λ v.
        subst (λ y. Fits (q v) y)
          (sym (
            ap (resolve (write x k (resolve s d) s)) (values-write x k (resolve s d) s v)
            ∙ resolve-write x k (resolve s d) (s.values v) s))
          (values v),
  )

  -- The calls for fields that are less deep than the number end.
  abbrev Ends : ℕ → (Cell → Store → Option Store) → Type 0
  Ends m descend =
      (c : Cell) (s : Store)
      → Fits m c
      → IsRanked s
      → (t : Store) × ((descend c s ≡ some t) × IsRanked t)

  visit_at-Ends :
      (m a i : ℕ) (descend : Cell → Store → Option Store) (o : Option Cell) (s : Store)
      → Ends m descend
      → r a ≤ m
      → get_at i (s.slices a) ≡ o
      → IsRanked s
      → (t : Store) × ((visit_at descend refer a i o s ≡ some t) × IsRanked t)
  unfolding visit_at refer
  visit_at-Ends m a i descend none s ends le e ranked = (s, (refl, ranked))
  visit_at-Ends m a i descend (some c) s ends le e ranked =
      ends (resolve s c) (write a i (resolve s c) s)
        (Fits-le (r a) m (resolve s c) le (ranked.0 a i c e)) (IsRanked-kept s a i c e ranked)

  walk_from-Ends :
      (m a : ℕ) (descend : Cell → Store → Option Store)
      → Ends m descend
      → r a ≤ m
      → (i n : ℕ) (s : Store) → IsRanked s
      → (t : Store) × ((walk_from descend refer a i n s ≡ some t) × IsRanked t)
  unfolding walk_from
  walk_from-Ends m a descend ends le i zero s ranked = (s, (refl, ranked))
  walk_from-Ends m a descend ends le i (suc n) s ranked =
      let (t, (here, kept)) =
        visit_at-Ends m a i descend (get_at i (s.slices a)) s ends le refl ranked in
      let (u, (rest, last)) = walk_from-Ends m a descend ends le (suc i) n t kept in
      (u, (ap (λ o. and_then o (walk_from descend refer a (suc i) n)) here ∙ rest, last))

  walk_slice-Ends :
      (m a : ℕ) (descend : Cell → Store → Option Store)
      → Ends m descend
      → r a ≤ m
      → (s : Store) → IsRanked s
      → (t : Store) × ((walk_slice descend refer a s ≡ some t) × IsRanked t)
  unfolding walk_slice
  walk_slice-Ends m a descend ends le s ranked =
      walk_from-Ends m a descend ends le 0 (length (s.slices a)) s ranked

  walk_branches-Ends :
      (m : ℕ) (descend : Cell → Store → Option Store)
      → Ends m descend
      → (bs : List (IrVariantHead × ℕ)) → All (λ b. r b.1 ≤ m) bs
      → (s : Store) → IsRanked s
      → (t : Store) × ((walk_branches descend refer bs s ≡ some t) × IsRanked t)
  unfolding walk_branches
  walk_branches-Ends m descend ends [] h s ranked = (s, (refl, ranked))
  walk_branches-Ends m descend ends ((head, a) ∷ bs) (le, h) s ranked =
      let (t, (here, kept)) = walk_slice-Ends m a descend ends le s ranked in
      let (u, (rest, last)) = walk_branches-Ends m descend ends bs h t kept in
      (u, (ap (λ o. and_then o (walk_branches descend refer bs)) here ∙ rest, last))

  walk_value-Ends :
      (m : ℕ) (descend : Cell → Store → Option Store)
      → Ends m descend
      → (o : Option ℕ) → FitsValue (suc m) o
      → (s : Store) → IsRanked s
      → (t : Store) × ((walk_value descend refer o s ≡ some t) × IsRanked t)
  unfolding walk_value refer
  walk_value-Ends m descend ends none h s ranked = (s, (refl, ranked))
  walk_value-Ends m descend ends (some v) h s ranked =
      ends (resolve s (s.values v)) s
        (Fits-le (q v) m (resolve s (s.values v)) (omega arith) (ranked.1 v)) ranked

  below-Ends : (n : ℕ) → Ends n (below refer n)
  unfolding below
  below-Ends zero c s fits ranked = absurd (omega (arith, fits.0))
  below-Ends (suc n) c s (f, (b, v)) ranked =
      let (s1, (one, kept)) =
        walk_slice-Ends n c.fields (below refer n) (below-Ends n) (omega arith) s ranked in
      let (s2, (two, kept2)) =
        walk_branches-Ends n (below refer n) (below-Ends n) c.branches
          (All-map (λ x. r x.1 < suc n) (λ x. r x.1 ≤ n) c.branches (λ x l. omega arith) b) s1
          kept in
      let (t, (three, last)) =
        walk_value-Ends n (below refer n) (below-Ends n) c.value_type v s2 kept2 in
      (
        t,
        (
          ap
                (λ o. and_then o (λ y.
                  and_then (walk_branches (below refer n) refer c.branches y)
                    (λ z. walk_value (below refer n) refer c.value_type z)))
                one
              ∙ (ap (λ o. and_then o (λ z. walk_value (below refer n) refer c.value_type z)) two
                  ∙ three),
          last,
        ),
      )

  -- The walk that resolves references ends, on calls as deep as the roots, if there are depths such
  -- that every field, once its reference is resolved, refers to less deep fields only.
  pub walk_roots-IsRanked :
      (n : ℕ) (roots : List ℕ) (s : Store)
      → All (λ a. r a ≤ n) roots
      → IsRanked s
      → (t : Store) × ((walk_roots refer n roots s ≡ some t) × IsRanked t)
  unfolding walk_roots
  walk_roots-IsRanked n [] s h ranked = (s, (refl, ranked))
  walk_roots-IsRanked n (a ∷ roots) s (le, h) ranked =
      let (t, (here, kept)) = walk_slice-Ends n a (below refer n) (below-Ends n) le s ranked in
      let (u, (rest, last)) = walk_roots-IsRanked n roots t h kept in
      (u, (ap (λ o. and_then o (walk_roots refer n roots)) here ∙ rest, last))
