-- ===== src/Sokel/Access/Enrollment.antt =====
-- The enrollment loop of `resolveAccess` in sokel/transport_nats.go.
use native.Mathlib.Nat.{add-zero, zero-add}
use sokel_plugin_sdk.Base.{
  ℕ, zero, suc, ◌+◌, ◌<◌, ◌≢◌, Text, is_empty, is_empty_of_ne, true, some, List, [], ◌∷◌, ◌++◌,
  append-nil, append_assoc, Result, ok, err, ◌≡◌, ◌∙◌, arith,
}
use sokel_plugin_sdk.Sokel.Access.{
  Access, AccessError, Platform, Setting, enroll_access, resolve_access, enroll_retry_delay,
  enroll_loop,
}

-- The waits of `k` failed attempts from number `n` on.
abbrev pub waits_from : (ℕ → AccessError) → ℕ → ℕ → List ℕ
waits_from why zero n = []
waits_from why (suc k) n = enroll_retry_delay (why n) n ∷ waits_from why k (suc n)

shift : (n i : ℕ) → n + suc i ≡ suc n + i
shift n i = omega arith

-- Where the first success is attempt `n + k`, and all attempts from `n` on fail before it, the loop
-- returns it, given more fuel than failures.
enroll_loop_from :
    (enroll : ℕ → Result AccessError Access) (why : ℕ → AccessError) (k fuel n : ℕ) (acc : Access)
    (waits : List ℕ)
    → k < fuel
    → ((i : ℕ) → i < k → enroll (n + i) ≡ err (why (n + i)))
    → enroll (n + k) ≡ ok acc
    → enroll_loop enroll fuel n waits
      ≡ some (record {
        access = acc;
        token = acc.token;
        managed = true;
        waits = waits ++ waits_from why k n;
      })
unfolding enroll_loop
enroll_loop_from enroll why k zero n acc waits lt fails good = absurd (omega arith)
enroll_loop_from enroll why zero (suc fuel) n acc waits lt fails good =
    let found : enroll n ≡ ok acc = rw add-zero at good in rw (found, enroll_loop, append-nil)
enroll_loop_from enroll why (suc k) (suc fuel) n acc waits lt fails good =
    let bad : enroll n ≡ err (why n) = rw add-zero at (fails 0 (omega arith)) in
    let next : ((i : ℕ) → i < k → enroll (suc n + i) ≡ err (why (suc n + i))) =
      λ i h. rw (shift n i) at (fails (suc i) (omega arith)) in
    let last : enroll (suc n + k) ≡ ok acc = rw (shift n k) at good in
    rw (bad, enroll_loop)
      (enroll_loop_from enroll why k fuel (suc n) acc _ (omega arith) next last ∙ rw append_assoc)

-- Without a bundle and a token, and with a deployment key, the replica is enrolled by the first
-- attempt that succeeds, given more fuel than there are failures before it; it takes the token of
-- that answer, is marked as managed, and waits after each failure as long as the error says.
pub resolve_access-enrolls :
    (decode : Text → Result Text Access) (platform : ℕ → Platform) (fuel : ℕ) (s : Setting)
    (why : ℕ → AccessError) (k : ℕ) (acc : Access)
    → s.bundle ≡ []
    → s.token ≡ []
    → s.deploy_key ≢ []
    → k < fuel
    → ((i : ℕ) → i < k → enroll_access (platform i) s.endpoint s.deploy_key s.name ≡ err (why i))
    → enroll_access (platform k) s.endpoint s.deploy_key s.name ≡ ok acc
    → resolve_access decode platform fuel s
      ≡ some (
          ok (record {
            access = acc;
            token = acc.token;
            managed = true;
            waits = waits_from why k 0;
          }))
unfolding resolve_access
resolve_access-enrolls decode platform fuel s why k acc no_bundle no_token key lt fails good =
    let attempt = λ (n : ℕ). enroll_access (platform n) s.endpoint s.deploy_key s.name in
    let looped =
      enroll_loop_from attempt why k fuel 0 acc [] lt (λ i h. rw zero-add (fails i h))
        (rw zero-add good) in
    let unbundled : is_empty s.bundle ≡ true = ground arith in
    let tokenless : is_empty s.token ≡ true = ground arith in
    rw (unbundled, tokenless, is_empty_of_ne s.deploy_key key, looped, resolve_access)
