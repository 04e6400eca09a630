-- ===== src/Gen/Report.antt =====
-- internal/gen/manifest.go: `if bad { add(…) }`, the problem of one test of the validation.
use sokel_plugin_sdk.Base.{
  Bool, true, false, not, ◌&&◌, ◌||◌, List, [], ◌∷◌, ◌++◌, append-eq-nil, is_empty, if◌then◌else◌,
  ◌≡◌, ◌≢◌, ◌↔◌, refl, arith,
}
use sokel_plugin_sdk.Gen.Problem.{Problem}

abbrev pub report : Bool → Problem → List Problem
report bad p = if bad then p ∷ [] else []

pub report-eq-nil :
    {P : Type 0} (b : Bool) (p : Problem) → ((b ≡ false) ↔ P) → (report b p ≡ []) ↔ P
report-eq-nil true p h = (λ e. absurd (ground arith), λ x. absurd (ground (arith, h.1 x)))
report-eq-nil false p h = (λ e. h.0 refl, λ x. refl)

pub report_both :
    {P Q : Type 0} {xs ys : List Problem}
    → ((xs ≡ []) ↔ P)
    → ((ys ≡ []) ↔ Q)
    → ((xs ++ ys) ≡ []) ↔ (P × Q)
report_both {xs = xs} {ys = ys} h k = (
  λ e. let (p, q) = (append-eq-nil xs ys).0 e in (h.0 p, k.0 q),
  λ (x, y). (append-eq-nil xs ys).1 (h.1 x, k.1 y),
)

pub is_empty_iff {ℓ} : {A : Type ℓ} (xs : List A) → (is_empty xs ≡ false) ↔ (xs ≢ [])
is_empty_iff [] = (λ h. absurd (ground arith), λ h. absurd (h refl))
is_empty_iff (x ∷ xs) = (λ h. λ e. cc, λ h. refl)

pub not-eq-false : {P : Type 0} (b : Bool) → ((b ≡ true) ↔ P) → (not b ≡ false) ↔ P
not-eq-false true h = (λ e. h.0 refl, λ x. refl)
not-eq-false false h = (λ e. absurd (ground arith), λ x. absurd (ground (arith, h.1 x)))

pub or-eq-false :
    {P Q : Type 0} (b c : Bool)
    → ((b ≡ false) ↔ P)
    → ((c ≡ false) ↔ Q)
    → ((b || c) ≡ false) ↔ (P × Q)
or-eq-false b c h k = (
  λ e. (h.0 (ground arith), k.0 (ground arith)),
  λ (x, y). let p : b ≡ false = h.1 x in let q : c ≡ false = k.1 y in ground arith,
)

pub and-eq-false :
    {P Q : Type 0} (b c : Bool)
    → ((b ≡ true) ↔ P)
    → ((c ≡ false) ↔ Q)
    → ((b && c) ≡ false) ↔ (P → Q)
and-eq-false true c h k = (λ e. λ x. k.0 e, λ f. k.1 (f (h.0 refl)))
and-eq-false false c h k = (λ e. λ x. absurd (ground (arith, h.1 x)), λ f. refl)

pub not-eq-true : {P : Type 0} (b : Bool) → ((b ≡ true) ↔ P) → (not b ≡ true) ↔ (¬ P)
not-eq-true true h = (λ e. absurd (ground arith), λ n. absurd (n (h.0 refl)))
not-eq-true false h = (λ e. λ x. absurd (ground (arith, h.1 x)), λ n. refl)

pub report_when :
    {P : Type 0} (b : Bool) (xs : List Problem)
    → ((xs ≡ []) ↔ P)
    → ((if b then xs else []) ≡ []) ↔ ((b ≡ true) → P)
report_when true xs h = (λ e. λ x. h.0 e, λ f. h.1 (f refl))
report_when false xs h = (λ e. λ x. absurd (ground arith), λ f. refl)

pub is_empty-true {ℓ} : {A : Type ℓ} (xs : List A) → (is_empty xs ≡ true) ↔ (xs ≡ [])
is_empty-true [] = (λ h. refl, λ h. refl)
is_empty-true (x ∷ xs) = (λ h. absurd (ground arith), λ h. absurd (ground arith))

-- An early return with one problem.
pub report_or :
    {P : Type 0} (b : Bool) (p : Problem) (xs : List Problem)
    → ((b ≡ true) → ¬ P)
    → ((xs ≡ []) ↔ P)
    → ((if b then p ∷ [] else xs) ≡ []) ↔ P
report_or true p xs never h = (λ e. absurd (ground arith), λ x. absurd (never refl x))
report_or false p xs never h = h
