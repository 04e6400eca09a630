-- ===== src/Gen/References/Cycles.antt =====
-- `resolveGoTypeRefs` of internal/gen/manifest.go on a structure that refers to itself.
use mathlib.Core.Path.{subst}
use sokel_plugin_sdk.Base.{
  ℕ, zero, suc, ◌+◌, ◌≤◌, ◌<◌, Option, none, some, eq_of_some, List, [], ◌∷◌, length, is_empty, In,
  ◌==◌, ==_iff, ◌≡◌, ◌≢◌, ◌⊎◌, refl, sym, ap, ◌∙◌, arith, Bool-cases, inl, inr,
}
use sokel_plugin_sdk.Gen.References.{
  Cell, Store, and_then, get_at, set_at, write, visit_at, walk_from, walk_slice, walk_branches,
  walk_value, below, walk_roots, resolve, refer,
}
use sokel_plugin_sdk.Gen.References.Keeps.{
  IsKept, Keeps, visit_at_keeps, walk_slice_keeps, below-Keeps,
}

is_empty-set_at : (k : ℕ) (d : Cell) (cs : List Cell) → is_empty (set_at k d cs) ≡ is_empty cs
unfolding set_at
is_empty-set_at k d [] = refl
is_empty-set_at zero d (c ∷ cs) = refl
is_empty-set_at (suc k) d (c ∷ cs) = refl

is_empty-write :
    (x k y : ℕ) (d : Cell) (s : Store) → is_empty ((write x k d s).slices y) ≡ is_empty (s.slices y)
unfolding write
is_empty-write x k y d s = elim (Bool-cases (y == x)) [
  | inl e ↦ rw e (is_empty-set_at k d (s.slices y))
  | inr e ↦ rw e refl
]

-- A write changes neither which slices are empty nor the definitions.
pub resolve-write : (x k : ℕ) (d c : Cell) (s : Store) → resolve (write x k d s) c ≡ resolve s c
unfolding resolve write
resolve-write x k d c s = rw (is_empty-write x k c.fields d s) refl

pub resolve_twice : (s : Store) (c : Cell) → resolve s (resolve s c) ≡ resolve s c
unfolding resolve
resolve_twice s c = ground arith

get_at-set_same :
    (k : ℕ) (d e : Cell) (cs : List Cell) → get_at k cs ≡ some e → get_at k (set_at k d cs) ≡ some d
unfolding get_at set_at
get_at-set_same k d e [] h = absurd (ground arith)
get_at-set_same zero d e (c ∷ cs) h = refl
get_at-set_same (suc k) d e (c ∷ cs) h = get_at-set_same k d e cs h

get_at-set_other :
    (i k : ℕ) (d : Cell) (cs : List Cell) → i ≢ k → get_at i (set_at k d cs) ≡ get_at i cs
unfolding get_at set_at
get_at-set_other i k d [] h = refl
get_at-set_other zero zero d (c ∷ cs) h = absurd (h refl)
get_at-set_other zero (suc k) d (c ∷ cs) h = refl
get_at-set_other (suc i) zero d (c ∷ cs) h = refl
get_at-set_other (suc i) (suc k) d (c ∷ cs) h = get_at-set_other i k d cs (λ e. h (cc e))

pub get_at-write :
    (a i x k : ℕ) (d e : Cell) (s : Store)
    → get_at k (s.slices x) ≡ some e
    → ((a ≡ x) × (i ≡ k) × (get_at i ((write x k d s).slices a) ≡ some d))
      ⊎ (get_at i ((write x k d s).slices a) ≡ get_at i (s.slices a))
unfolding write
get_at-write a i x k d e s h = elim (Bool-cases (a == x)) [
  | inr ne ↦ inr (rw ne refl)
  | inl ea ↦
      let same_slice : a ≡ x = (==_iff a x).0 ea in
      let there : get_at k (s.slices a) ≡ some e =
        subst (λ y. get_at k (s.slices y) ≡ some e) (sym same_slice) h in
      elim (Bool-cases (i == k)) [
        | inl ei ↦
            let same_index : i ≡ k = (==_iff i k).0 ei in
            inl (
              same_slice,
              same_index,
              rw (ea, same_index) (get_at-set_same k d e (s.slices a) there),
            )
        | inr ni ↦ inr (rw ea (get_at-set_other i k d (s.slices a) (λ q. absurd (ground arith))))
      ]
]

and_then-none :
    {A B : Type 0} (o : Option A) (next : A → Option B)
    → ((x : A) → o ≡ some x → next x ≡ none)
    → and_then o next ≡ none
and_then-none none next h = refl
and_then-none (some x) next h = h x refl

get_at-length : (i : ℕ) (c : Cell) (cs : List Cell) → get_at i cs ≡ some c → i < length cs
unfolding get_at
get_at-length i c [] h = absurd (ground arith)
get_at-length zero c (d ∷ cs) h = omega arith
get_at-length (suc i) c (d ∷ cs) h = omega (arith, get_at-length i c cs h)

module _ (D : ℕ → Type 0) where
  -- A field of the slice refers to a slice of the set, once its reference is resolved.
  abbrev pub Refers : ℕ → ℕ → Store → Type 0
  Refers a i s = (c : Cell) × ((get_at i (s.slices a) ≡ some c) × D (resolve s c).fields)

  -- From every slice of the set a field leads to a slice of the set again: there is a cycle.
  abbrev pub IsEndless : Store → Type 0
  IsEndless s = (a : ℕ) → D a → (i : ℕ) × Refers a i s

  Refers-kept : (a i : ℕ) → IsKept (Refers a i)
  Refers-kept a i s x k d m (c, (at_i, refers)) = elim (get_at-write a i x k (resolve s d) d s m) [
    | inl (ea, ei, new) ↦
        let found : some d ≡ some c =
          sym m
          ∙ (ap (get_at k) (ap s.slices (sym ea))
              ∙ (ap (λ j. get_at j (s.slices a)) (sym ei) ∙ at_i)) in
        let alike : d ≡ c = eq_of_some found in
        let again : resolve (write x k (resolve s d) s) (resolve s d) ≡ resolve s c =
          resolve-write x k (resolve s d) (resolve s d) s
          ∙ (resolve_twice s d ∙ ap (resolve s) alike) in
        (resolve s d, (new, subst (λ y. D y.fields) (sym again) refers))
    | inr kept ↦ (
      c,
      (kept ∙ at_i, subst (λ y. D y.fields) (sym (resolve-write x k (resolve s d) c s)) refers),
    )
  ]

  IsEndless-kept : IsKept IsEndless
  IsEndless-kept s x k d m endless a da =
      let (i, refers) = endless a da in (i, Refers-kept a i s x k d m refers)

  -- Both, for the loop over one slice.
  abbrev Both : ℕ → ℕ → Store → Type 0
  Both a i s = Refers a i s × IsEndless s

  Both-kept : (a i : ℕ) → IsKept (Both a i)
  Both-kept a i s x k d m (refers, endless) =
      (Refers-kept a i s x k d m refers, IsEndless-kept s x k d m endless)

  -- The calls below a field that leads to the set do not end.
  abbrev Runs : (Cell → Store → Option Store) → Type 0
  Runs descend = (c : Cell) (s : Store) → D c.fields → IsEndless s → descend c s ≡ none

  visit_none :
      (a i : ℕ) (descend : Cell → Store → Option Store) (s : Store)
      → Runs descend
      → (c : Cell) → get_at i (s.slices a) ≡ some c
      → Both a i s
      → visit_at descend refer a i (some c) s ≡ none
  unfolding visit_at refer
  visit_none a i descend s runs c m ((d, (at_i, refers)), endless) =
      let alike : d ≡ c = eq_of_some (sym at_i ∙ m) in
      runs (resolve s c) (write a i (resolve s c) s)
        (subst (λ y. D (resolve s y).fields) alike refers) (IsEndless-kept s a i c m endless)

  walk_from-none :
      (a i : ℕ) (descend : Cell → Store → Option Store)
      → Keeps (Both a i) descend
      → Runs descend
      → (j n : ℕ) (s : Store) → j ≤ i
      → i < j + n
      → Both a i s
      → walk_from descend refer a j n s ≡ none
  unfolding walk_from
  walk_from-none a i descend keeps runs j zero s le lt both = absurd (omega arith)
  walk_from-none a i descend keeps runs j (suc n) s le lt both = elim (Bool-cases (j == i)) [
    | inl e ↦
        let here : j ≡ i = (==_iff j i).0 e in
        let at_i = both.0.1.0 in
        let gone : visit_at descend refer a i (get_at i (s.slices a)) s ≡ none =
          ap (λ o. visit_at descend refer a i o s) at_i
          ∙ visit_none a i descend s runs both.0.0 at_i both in
        ap
          (λ y.
            and_then (visit_at descend refer a y (get_at y (s.slices a)) s)
              (walk_from descend refer a (suc y) n))
          here
        ∙ ap (λ o. and_then o (walk_from descend refer a (suc i) n)) gone
    | inr e ↦ and_then-none _ _ (λ t q.
        walk_from-none a i descend keeps runs (suc j) n t (let ne = ==_iff j i in ground arith)
          (omega arith)
          (visit_at_keeps (Both a i) (Both-kept a i) descend keeps a j (get_at j (s.slices a)) s t
            refl q both))
  ]

  walk_slice-none :
      (n a : ℕ) (s : Store)
      → Runs (below refer n)
      → D a
      → IsEndless s
      → walk_slice (below refer n) refer a s ≡ none
  unfolding walk_slice
  walk_slice-none n a s runs da endless =
      let (i, refers) = endless a da in
      walk_from-none a i (below refer n) (below-Keeps (Both a i) (Both-kept a i) n) runs 0
        (length (s.slices a)) s (omega arith)
        (omega (arith, get_at-length i refers.0 (s.slices a) refers.1.0)) (refers, endless)

  below-Runs : (n : ℕ) → Runs (below refer n)
  unfolding below
  below-Runs zero c s dc endless = refl
  below-Runs (suc n) c s dc endless =
      ap
        (λ o. and_then o (λ s1.
          and_then (walk_branches (below refer n) refer c.branches s1)
            (λ s2. walk_value (below refer n) refer c.value_type s2)))
        (walk_slice-none n c.fields s (below-Runs n) dc endless)

  -- The walk that resolves references does not end, whatever depth of calls is allowed, if it starts
  -- from a slice of a set of slices in which every slice has a field whose fields, once its reference
  -- is resolved, are a slice of the set: a structure that contains a reference to itself.
  pub walk_roots-IsEndless :
      (n a : ℕ) (roots : List ℕ) (s : Store)
      → In a roots
      → D a
      → IsEndless s
      → walk_roots refer n roots s ≡ none
  unfolding walk_roots
  walk_roots-IsEndless n a [] s m da endless = absurd m
  walk_roots-IsEndless n a (r ∷ roots) s (inl e) da endless =
      ap (λ o. and_then o (walk_roots refer n roots))
        (walk_slice-none n r s (below-Runs n) (subst D e da) endless)
  walk_roots-IsEndless n a (r ∷ roots) s (inr m) da endless = and_then-none _ _ (λ t q.
      walk_roots-IsEndless n a roots t m da (
        walk_slice_keeps IsEndless IsEndless-kept (below refer n)
          (below-Keeps IsEndless IsEndless-kept n) r s t q endless))
