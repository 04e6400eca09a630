-- ===== src/Gen/Fresh.antt =====
-- internal/gen/manifest.go: `seen`, the set of the names that stand before one in a list.
use sokel_plugin_sdk.Base.{
  Text, same_iff, Bool, true, false, List, [], ◌∷◌, In, All, IsDistinct, ◌≡◌, ◌↔◌, refl, arith,
}
use sokel_plugin_sdk.Gen.Check.{has_key}

-- The names can stand after those of `seen`.
abbrev pub IsFresh : (Text → Bool) → List Text → List Text → Type 0
IsFresh valid seen ns =
    All (λ n. valid n ≡ true) ns × (IsDistinct ns × All (λ n. has_key seen n ≡ false) ns)

unseen_iff :
    (seen : List Text) (n : Text) (ns : List Text)
    → All (λ m. has_key (n ∷ seen) m ≡ false) ns
      ↔ ((¬ (In n ns)) × All (λ m. has_key seen m ≡ false) ns)
unfolding has_key
unseen_iff seen n [] = (λ h. ((λ x. x), tt), λ h. tt)
unseen_iff seen n (m ∷ ns) = ground (arith, unseen_iff seen n ns, same_iff n m)

pub IsFresh-step :
    (valid : Text → Bool) (seen : List Text) (n : Text) (ns : List Text)
    → (((valid n ≡ true) × (has_key seen n ≡ false)) × IsFresh valid (n ∷ seen) ns)
      ↔ IsFresh valid seen (n ∷ ns)
IsFresh-step valid seen n ns =
    let unseen = unseen_iff seen n ns in
    (
      λ ((fits, new), (vs, (ds, us))).
          let (out, olds) = unseen.0 us in ((fits, vs), ((out, ds), (new, olds))),
      λ ((fits, vs), ((out, ds), (new, olds))). ((fits, new), (vs, (ds, unseen.1 (out, olds)))),
    )

-- No name is seen at first.
pub unseen_start : (ns : List Text) → All (λ n. has_key [] n ≡ false) ns
unfolding has_key
unseen_start [] = tt
unseen_start (n ∷ ns) = (refl, unseen_start ns)

pub IsFresh-start :
    (valid : Text → Bool) (ns : List Text)
    → IsFresh valid [] ns ↔ (All (λ n. valid n ≡ true) ns × IsDistinct ns)
IsFresh-start valid ns = (λ (v, (d, u)). (v, d), λ (v, d). (v, (d, unseen_start ns)))

pub has_key_iff : (ks : List Text) (k : Text) → (has_key ks k ≡ true) ↔ In k ks
unfolding has_key
has_key_iff [] k = (λ h. absurd (ground arith), λ h. absurd h)
has_key_iff (j ∷ ks) k = ground (arith, has_key_iff ks k, same_iff j k)
