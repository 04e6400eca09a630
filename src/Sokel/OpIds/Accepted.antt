-- ===== src/Sokel/OpIds/Accepted.antt =====
-- The ids that `mustBusinessOpID` of sokel/sokel.go lets through.
use sokel_plugin_sdk.Base.{
  ℕ, ◌≤◌, Text, codes, same_iff, true, false, [], ◌∷◌, All, Result, ok, err, ◌>>◌, ◌≡◌, ◌↔◌, ◌⊎◌,
  refl, arith,
}
use sokel_plugin_sdk.Sokel.OpIds.{IdPanic, check_runes, check_old_name, must_business_op_id}

abbrev IsHead : ℕ → Type 0
IsHead c = ((b'a' ≤ c) × (c ≤ b'z')) ⊎ (c ≡ b'_')

abbrev IsTail : ℕ → Type 0
IsTail c = IsHead c ⊎ ((b'0' ≤ c) × (c ≤ b'9'))

abbrev IsOldName : Text → Type 0
IsOldName id = (id ≡ codes "auth_start") ⊎ ((id ≡ codes "auth_submit") ⊎ (id ≡ codes "auth_poll"))

-- A lowercase letter or an underscore, then lowercase letters, digits and underscores.
abbrev pub IsBusinessId : Text → Type 0
IsBusinessId [] = ⊥
IsBusinessId (c ∷ s) = IsHead c × All IsTail s × (IsOldName (c ∷ s) → ⊥)

check_tail_total : (id s : Text) → All IsTail s → check_runes id true s ≡ ok tt
unfolding check_runes
check_tail_total id [] h = refl
check_tail_total id (c ∷ s) (p, h) = ground (arith, check_tail_total id s h)

check-IsTail_sound : (id s : Text) → check_runes id true s ≡ ok tt → All IsTail s
unfolding check_runes
check-IsTail_sound id [] h = tt
check-IsTail_sound id (c ∷ s) h = ground (arith, check-IsTail_sound id s)

check_old_name_iff : (id : Text) → (check_old_name id ≡ ok tt) ↔ (IsOldName id → ⊥)
unfolding check_old_name
check_old_name_iff id = ground (
  arith,
  same_iff id (codes "auth_start"),
  same_iff id (codes "auth_submit"),
  same_iff id (codes "auth_poll"),
)

check-IsHead_iff :
    (id s : Text) (c : ℕ) → (check_runes id false (c ∷ s) ≡ ok tt) ↔ (IsHead c × All IsTail s)
unfolding check_runes
check-IsHead_iff id s c =
    (λ h. ground (arith, check-IsTail_sound id s), λ h. ground (arith, check_tail_total id s h.1))

then_iff : (m n : Result IdPanic (Unit {0})) → ((m >> n) ≡ ok tt) ↔ ((m ≡ ok tt) × (n ≡ ok tt))
then_iff (ok tt) n = (λ h. (refl, h), λ h. h.1)
then_iff (err e) n = (λ h. cc, λ h. cc)

must_empty : must_business_op_id [] ≡ ok tt → ⊥
unfolding must_business_op_id
must_empty h = cc

must_split :
    (c : ℕ) (s : Text)
    → must_business_op_id (c ∷ s) ≡ (check_runes (c ∷ s) false (c ∷ s) >> check_old_name (c ∷ s))
unfolding must_business_op_id
must_split c s = refl

-- An id is accepted exactly when it is a lowercase letter or an underscore, followed by lowercase
-- letters, digits and underscores, and is none of the three names of the old auth convention.
pub must_business_op_id_iff : (id : Text) → (must_business_op_id id ≡ ok tt) ↔ IsBusinessId id
must_business_op_id_iff [] = (λ h. absurd (must_empty h), λ h. absurd h)
must_business_op_id_iff (c ∷ s) =
    let both = then_iff (check_runes (c ∷ s) false (c ∷ s)) (check_old_name (c ∷ s)) in
    let head = check-IsHead_iff (c ∷ s) s c in
    let old = check_old_name_iff (c ∷ s) in
    (
      λ h.
          let (runs, names) = both.0 (rw must_split at h) in
          let (p, q) = head.0 runs in (p, q, old.0 names),
      λ h. rw must_split (both.1 (head.1 (h.0, h.1), old.1 h.2)),
    )
