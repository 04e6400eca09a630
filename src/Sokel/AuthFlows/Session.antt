-- ===== src/Sokel/AuthFlows/Session.antt =====
-- The session that `auth.poll` hands over, in sokel/auth.go.
use sokel_plugin_sdk.Base.{
  codes, same, same_iff, Option, none, some, Result, ok, err, lookup, ok-injective, eq_of_some,
  Option-cases, ap, sym, ◌∙◌, ◌≡◌, ◌↔◌, refl, arith, Bool-cases, inl, inr,
}
use sokel_plugin_sdk.Contract.Field.{Value}
use sokel_plugin_sdk.Sokel.Errors.{GoError}
use sokel_plugin_sdk.Sokel.AuthFlows.{AuthState, PollOut, poll_vars, poll_body, auth_confirmed}

-- A handler's answer with a session that the platform may store.
abbrev Confirms : Result GoError (Option AuthState) → Value → Type 0
Confirms r v =
    (st : AuthState) × (r ≡ ok (some st)) × (st.status ≡ auth_confirmed) × (st.session ≡ some v)

lookup-poll_vars : (out : PollOut) → lookup (codes "session") (poll_vars out) ≡ out.session
unfolding poll_vars lookup same
lookup-poll_vars out = elim (Option-cases out.session) [
  | inl nothing ↦ rw (nothing, poll_vars)
  | inr (v, held) ↦ rw (held, poll_vars)
]

session_of :
    (r : Result GoError (Option AuthState)) (out : PollOut) (v : Value)
    → poll_body r ≡ ok out
    → (out.session ≡ some v) ↔ Confirms r v
unfolding poll_body
session_of (err e) out v h = absurd (ground arith)
session_of (ok none) out v h =
    let unset : none ≡ out.session = ap (λ (o : PollOut). o.session) (ok-injective h) in
    (λ s. absurd (ground arith), λ c. absurd (ground arith))
session_of (ok (some st)) out v h = elim (Bool-cases (same st.status auth_confirmed)) [
  | inl confirmed ↦
      let kept : st.session ≡ out.session =
        ap (λ (o : PollOut). o.session) (ok-injective (rw confirmed at h)) in
      (
        λ s. (st, refl, (same_iff st.status auth_confirmed).0 confirmed, kept ∙ s),
        λ c. sym kept ∙ ap (λ (x : AuthState). x.session) (eq_of_some (ok-injective c.1)) ∙ c.3,
      )
  | inr pending ↦
      let unset : none ≡ out.session =
        ap (λ (o : PollOut). o.session) (ok-injective (rw pending at h)) in
      (
        λ s. absurd (ground arith),
        λ c.
            let e = ap (λ (x : AuthState). x.status) (eq_of_some (ok-injective c.1)) ∙ c.2 in
            absurd (ground (arith, same_iff st.status auth_confirmed)),
      )
]

-- The variables of a poll that succeeds hold a session exactly when the handler reported the status
-- `confirmed` with that session.
poll_body-session :
    (r : Result GoError (Option AuthState)) (out : PollOut) (v : Value)
    → poll_body r ≡ ok out
    → (lookup (codes "session") (poll_vars out) ≡ some v) ↔ Confirms r v
poll_body-session r out v h = rw (lookup-poll_vars out) (session_of r out v h)
