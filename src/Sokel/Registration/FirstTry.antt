-- ===== src/Sokel/Registration/FirstTry.antt =====
-- The loop of the first registration in `run` of sokel/transport_nats.go.
use native.Mathlib.Nat.{add-zero, zero-add}
use sokel_plugin_sdk.Base.{
  ◌∙◌, ℕ, zero, suc, ◌+◌, ◌<◌, Text, some, Result, ok, err, ◌≡◌, ◌≢◌, ◌⊎◌, inl, inr, refl, arith,
}
use sokel_plugin_sdk.Sokel.Registration.{
  RegisterError, sdk_too_old, no_answer, registration_refused, Registered, first_registration,
}

-- A failure that waiting may mend.
abbrev pub IsTransient : Result RegisterError Registered → Type 0
IsTransient r = (e : RegisterError) × (r ≡ err e) × ((t : Text) → e ≢ sdk_too_old t)

-- An answer that ends the loop.
abbrev IsConclusive : Result RegisterError Registered → Type 0
IsConclusive r = ((reg : Registered) × (r ≡ ok reg)) ⊎ ((t : Text) × (r ≡ err (sdk_too_old t)))

shift : (n i : ℕ) → n + suc i ≡ suc n + i
shift n i = omega arith

one_more :
    (attempt : ℕ → Result RegisterError Registered) (fuel n : ℕ)
    → IsTransient (attempt n)
    → first_registration attempt (suc fuel) n ≡ first_registration attempt fuel (suc n)
unfolding first_registration
one_more attempt fuel n (no_answer e, why, _) = rw (why, first_registration)
one_more attempt fuel n (registration_refused t, why, _) = rw (why, first_registration)
one_more attempt fuel n (sdk_too_old t, why, old) = absurd (old t refl)

last_one :
    (attempt : ℕ → Result RegisterError Registered) (fuel n : ℕ)
    → IsConclusive (attempt n)
    → first_registration attempt (suc fuel) n ≡ some (n, attempt n)
unfolding first_registration
last_one attempt fuel n (inl (reg, e)) = rw (e, first_registration)
last_one attempt fuel n (inr (t, e)) = rw (e, first_registration)

first_registration_from :
    (attempt : ℕ → Result RegisterError Registered) (k fuel n : ℕ)
    → k < fuel
    → ((i : ℕ) → i < k → IsTransient (attempt (n + i)))
    → IsConclusive (attempt (n + k))
    → first_registration attempt fuel n ≡ some (n + k, attempt (n + k))
first_registration_from attempt k zero n lt fails last = absurd (omega arith)
first_registration_from attempt zero (suc fuel) n lt fails last =
    rw add-zero (last_one attempt fuel n (rw add-zero at last))
first_registration_from attempt (suc k) (suc fuel) n lt fails last =
    let now : IsTransient (attempt n) = rw add-zero at (fails 0 (omega arith)) in
    let later : ((i : ℕ) → i < k → IsTransient (attempt (suc n + i))) =
      λ i h. rw (shift n i) at (fails (suc i) (omega arith)) in
    let conclusive : IsConclusive (attempt (suc n + k)) = rw (shift n k) at last in
    one_more attempt fuel n now
    ∙ rw (shift n k) (first_registration_from attempt k fuel (suc n) (omega arith) later conclusive)

-- The first registration is repeated, with a wait after each try, until it is accepted or the SDK is
-- refused as too old, and ends with that answer, given more fuel than there are failures before it.
pub first_registration_lem :
    (attempt : ℕ → Result RegisterError Registered) (k fuel : ℕ)
    → k < fuel
    → ((i : ℕ) → i < k → IsTransient (attempt i))
    → IsConclusive (attempt k)
    → first_registration attempt fuel 0 ≡ some (k, attempt k)
first_registration_lem attempt k fuel lt fails last = rw zero-add at (
    first_registration_from attempt k fuel 0 lt (λ i h. rw zero-add (fails i h)) (rw zero-add last))
