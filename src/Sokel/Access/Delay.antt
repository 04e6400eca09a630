-- ===== src/Sokel/Access/Delay.antt =====
-- `enrollRetryDelay` of sokel/discover.go: how long enrollment waits.
use native.Mathlib.Nat.{pow-suc}
use sokel_plugin_sdk.Base.{
  ℕ, zero, suc, ◌*◌, ◌^◌, ◌≤◌, min, ◌≡◌, ◌∙◌, arith, Bool-cases, inl, inr, ltb, ltb→le,
  if◌then◌else◌,
}
use sokel_plugin_sdk.Sokel.Access.{
  AccessError, retry_ceiling, doubled, is_client_error, enroll_retry_delay,
}

pow-pos : (n : ℕ) → 1 ≤ 2 ^ n
pow-pos zero = omega arith
pow-pos (suc n) = rw pow-suc (omega (arith, pow-pos n))

le-mul_pow : (d n : ℕ) → d ≤ d * 2 ^ n
le-mul_pow d n = grind (arith, pow-pos n)

doubled-min : (n d : ℕ) → min (doubled n d) 300 ≡ min (d * 2 ^ n) 300
unfolding doubled
doubled-min zero d = omega arith
doubled-min (suc n) d = elim (Bool-cases (ltb d retry_ceiling)) [
  | inl below ↦ rw (below, doubled) (doubled-min n (d * 2) ∙ rw pow-suc (omega arith))
  | inr above ↦ rw (above, doubled) (omega (arith, ltb→le d 300 above, le-mul_pow d (suc n)))
]

-- The wait after a refusal by a 4xx status doubles from 8 seconds up to five minutes; after any
-- other error it is 8 seconds.
enroll_retry_delay_closed :
    (e : AccessError) (attempt : ℕ)
    → enroll_retry_delay e attempt ≡ (if is_client_error e then min (8 * 2 ^ attempt) 300 else 8)
unfolding enroll_retry_delay
enroll_retry_delay_closed e attempt = elim (Bool-cases (is_client_error e)) [
  | inl client ↦ rw client (doubled-min attempt 8)
  | inr other ↦ rw other
]
