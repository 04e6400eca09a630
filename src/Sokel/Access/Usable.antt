-- ===== src/Sokel/Access/Usable.antt =====
-- The results of `resolveAccess` in sokel/transport_nats.go.
use mathlib.Core.Path.{subst}
use sokel_plugin_sdk.Base.{
  ℕ, zero, suc, Text, Bool, true, false, ◌||◌, some, List, [], Result, ok, err, ◌>>=◌, >>=-eq-ok,
  Result-cases, ok-injective, eq_of_some, ◌≡◌, ◌≢◌, refl, arith, is_empty, ne_of_is_empty,
  Bool-cases, Option-cases, inl, inr, if◌then◌else◌,
}
use sokel_plugin_sdk.Sokel.Access.{
  Access, AccessError, no_transport, Platform, Setting, Resolved, platform_url, fetch,
  discover_access, enroll_access, enroll_loop, incomplete, incomplete_bundle, from_bundle,
  kept_token, resolve_access,
}

abbrev pub IsUsable : Resolved → Type 0
IsUsable r = (r.access.url ≢ []) × (r.token ≢ [])

passed :
    {A : Type 0} (b : Bool) (e : AccessError) (a c : A)
    → (if b then err e else ok a) ≡ ok c
    → (b ≡ false) × (a ≡ c)
passed true e a c h = cc
passed false e a c h = (refl, ok-injective h)

discover_access-url :
    (pl : Platform) (endpoint token : Text) (acc : Access)
    → discover_access pl endpoint token ≡ ok acc
    → acc.url ≢ []
unfolding discover_access
discover_access-url pl endpoint token acc h =
    let (base, _, h1) = >>=-eq-ok (platform_url endpoint) _ h in
    let (info, _, h2) = >>=-eq-ok (fetch pl.decode _ (pl.get _ token)) _ h1 in
    let (there, e) = passed (is_empty info.nats.url) (no_transport []) info.nats acc h2 in
    ne_of_is_empty acc.url (rw e at there)

either_false : (a b : Bool) → (a || b) ≡ false → (a ≡ false) × (b ≡ false)
either_false a b h = ground arith

-- An enrollment that succeeds gives a token and an address.
abbrev IsEnrolled : Access → Type 0
IsEnrolled acc = (acc.url ≢ []) × (acc.token ≢ [])

enroll_access-IsEnrolled :
    (pl : Platform) (endpoint key plugin : Text) (acc : Access)
    → enroll_access pl endpoint key plugin ≡ ok acc
    → IsEnrolled acc
unfolding enroll_access
enroll_access-IsEnrolled pl endpoint key plugin acc h =
    let (base, _, h1) = >>=-eq-ok (platform_url endpoint) _ h in
    let (out, _, h2) = >>=-eq-ok (fetch pl.decode _ (pl.post _ key plugin)) _ h1 in
    let (there, e) =
      passed (is_empty out.token || is_empty out.nats.url) (no_transport out.detail)
        (record out.nats { token = out.token }) acc h2 in
    let (token, url) = either_false _ _ there in
    let given : IsEnrolled (record out.nats { token = out.token }) =
      (ne_of_is_empty out.nats.url url, ne_of_is_empty out.token token) in
    subst IsEnrolled e given

enroll_loop-IsUsable :
    (enroll : ℕ → Result AccessError Access) (fuel n : ℕ) (waits : List ℕ) (r : Resolved)
    → ((i : ℕ) (acc : Access) → enroll i ≡ ok acc → IsEnrolled acc)
    → enroll_loop enroll fuel n waits ≡ some r
    → IsUsable r
unfolding enroll_loop
enroll_loop-IsUsable enroll zero n waits r good h = absurd (ground arith)
enroll_loop-IsUsable enroll (suc fuel) n waits r good h = elim (Result-cases (enroll n)) [
  | inl (acc, found) ↦
      let e : some (record { access = acc; token = acc.token; managed = true; waits = waits })
          ≡ some r =
        rw (found, enroll_loop) at h in
      let given : IsUsable
          (record { access = acc; token = acc.token; managed = true; waits = waits }) =
        good n acc found in
      subst IsUsable (eq_of_some e) given
  | inr (why, bad) ↦ enroll_loop-IsUsable enroll fuel (suc n) _ r good (rw (bad, enroll_loop) at h)
]

from_bundle-IsUsable :
    (decode : Text → Result Text Access) (raw : Text) (r : Resolved)
    → from_bundle decode raw ≡ ok r
    → IsUsable r
unfolding from_bundle
from_bundle-IsUsable decode raw r h = elim (Result-cases (decode raw)) [
  | inl (acc, found) ↦
      let (there, e) =
        passed (incomplete acc) incomplete_bundle
          (record {
            access = record acc { token = acc.access_token };
            token = acc.access_token;
            managed = false;
            waits = [];
          })
          r (rw (found, from_bundle) at h) in
      let (rest, token) =
        either_false (is_empty acc.url || is_empty acc.user || is_empty acc.pass)
          (is_empty acc.access_token) there in
      let (rest', _) =
        either_false (is_empty acc.url || is_empty acc.user) (is_empty acc.pass) rest in
      let (url, _) = either_false (is_empty acc.url) (is_empty acc.user) rest' in
      let given : IsUsable (record {
        access = record acc { token = acc.access_token };
        token = acc.access_token;
        managed = false;
        waits = [];
      }) =
        (ne_of_is_empty acc.url url, ne_of_is_empty acc.access_token token) in
      subst IsUsable e given
  | inr (why, bad) ↦ absurd (ground arith)
]

discovered-IsUsable :
    (token : Text) (d : Result AccessError Access) (r : Resolved)
    → token ≢ []
    → ((acc : Access) → d ≡ ok acc → acc.url ≢ [])
    → (d >>= λ acc. ok (kept_token token acc)) ≡ ok r
    → IsUsable r
unfolding kept_token
discovered-IsUsable token d r given url h =
    let (acc, found, e) = >>=-eq-ok d (λ acc. ok (kept_token token acc)) h in
    let usable : IsUsable (kept_token token acc) = (url acc found, given) in
    subst IsUsable (ok-injective e) usable

-- Access from a bundle, from a token or by enrollment: where it is obtained, it has the address of
-- a broker and a token.
pub resolve_access-IsUsable :
    (decode : Text → Result Text Access) (platform : ℕ → Platform) (fuel : ℕ) (s : Setting)
    (r : Resolved)
    → resolve_access decode platform fuel s ≡ some (ok r)
    → IsUsable r
unfolding resolve_access
resolve_access-IsUsable decode platform fuel s r h = elim (Bool-cases (is_empty s.bundle)) [
  | inr bundled ↦ from_bundle-IsUsable decode s.bundle r (eq_of_some (rw bundled at h))
  | inl unbundled ↦ elim (Bool-cases (is_empty s.token)) [
    | inr token ↦
        let found : (discover_access (platform 0) s.endpoint s.token >>= λ acc.
        ok (kept_token s.token acc))
            ≡ ok r =
          eq_of_some (rw (unbundled, token) at h) in
        discovered-IsUsable s.token (discover_access (platform 0) s.endpoint s.token) r
          (ne_of_is_empty s.token token) (discover_access-url (platform 0) s.endpoint s.token) found
    | inl tokenless ↦ elim (Bool-cases (is_empty s.deploy_key)) [
      | inl keyless ↦ absurd (ground arith)
      | inr key ↦
          elim (Option-cases (
            enroll_loop (λ n. enroll_access (platform n) s.endpoint s.deploy_key s.name) fuel 0
              [])) [
                | inl out ↦ absurd (ground arith)
                | inr (r', looped) ↦
                    enroll_loop-IsUsable
                      (λ n. enroll_access (platform n) s.endpoint s.deploy_key s.name) fuel 0 [] r
                      (λ i acc.
                        enroll_access-IsEnrolled (platform i) s.endpoint s.deploy_key s.name acc)
                      (ground arith)
              ]
    ]
  ]
]
