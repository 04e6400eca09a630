-- ===== src/Sokel/AuthFlows/Steps.antt =====
-- The operations that `SetAuthFlow` of sokel/auth.go registers.
use mathlib.Core.List.{map-append}
use sokel_plugin_sdk.Base.{
  Text, codes, true, Result, Option, none, some, List, [], ◌∷◌, ◌++◌, map, append-nil, append_assoc,
  All, All-append, ◌≡◌, refl, ap, ◌∙◌, sym,
}
use sokel_plugin_sdk.Sokel.Errors.{GoError}
use sokel_plugin_sdk.Sokel.Plugin.{Plugin, OpEntry, Ctx, AuthFlow}
use sokel_plugin_sdk.Sokel.AuthFlows.{
  AuthMeta, AuthHandlers, AuthChallenge, AuthState, Derived, with_start, with_poll, with_submit,
  step_if, set_auth_flow,
}

-- The plugin `q` has, behind the operations of `p`, one internal operation for each step.
abbrev HasSteps : List Text → Plugin → Plugin → Type 0
HasSteps steps p q =
    (es : List OpEntry) × (q.ops ≡ p.ops ++ es)
    × (map (λ (e : OpEntry). e.op.id) es ≡ map (λ s. codes "auth." ++ s) steps)
    × All (λ (e : OpEntry). e.op.internal ≡ true) es

HasSteps-append :
    (xs ys : List Text) (p q r : Plugin)
    → HasSteps xs p q
    → HasSteps ys q r
    → HasSteps (xs ++ ys) p r
HasSteps-append xs ys p q r (es, e, ids, internal) (fs, f, ids', internal') = (
  es ++ fs,
  f ∙ ap (λ os. os ++ fs) e ∙ append_assoc p.ops es fs,
  map-append (λ (e : OpEntry). e.op.id) es fs
      ∙ ap (λ l. l ++ map (λ (e : OpEntry). e.op.id) fs) ids
      ∙ ap (λ l. map (λ s. codes "auth." ++ s) xs ++ l) ids'
      ∙ sym (map-append (λ s. codes "auth." ++ s) xs ys),
  All-append (λ (e : OpEntry). e.op.internal ≡ true) es fs internal internal',
)

module _ (panic_text : Text → Text → Text) (d : Derived) (fresh : Text) where
  HasSteps-start :
      (meta : AuthMeta) (h : Option (Ctx → Result GoError (Option AuthChallenge))) (p : Plugin)
      → HasSteps
          (step_if panic_text d fresh (codes "start") h)
          p
          (with_start panic_text d fresh meta h p)
  unfolding with_start step_if
  HasSteps-start meta none p = ([], sym (append-nil p.ops), refl, tt)
  HasSteps-start meta (some f) p = (_ ∷ [], refl, refl, (refl, tt))

  HasSteps-poll :
      (h : Option (Ctx → Text → Result GoError (Option AuthState))) (p : Plugin)
      → HasSteps (step_if panic_text d fresh (codes "poll") h) p (with_poll panic_text d fresh h p)
  unfolding with_poll step_if
  HasSteps-poll none p = ([], sym (append-nil p.ops), refl, tt)
  HasSteps-poll (some f) p = (_ ∷ [], refl, refl, (refl, tt))

  HasSteps-submit :
      (h : Option (Ctx → Text → Text → Result GoError (Unit {0}))) (p : Plugin)
      → HasSteps
          (step_if panic_text d fresh (codes "submit") h)
          p
          (with_submit panic_text d fresh h p)
  unfolding with_submit step_if
  HasSteps-submit none p = ([], sym (append-nil p.ops), refl, tt)
  HasSteps-submit (some f) p = (_ ∷ [], refl, refl, (refl, tt))

  -- `SetAuthFlow` reports a flow of the declared kind, and registers behind the other operations one
  -- internal operation for each step of that flow, in order, with the reserved id of the step.
  pub set_auth_flow-HasSteps :
      (p : Plugin) (meta : AuthMeta) (h : AuthHandlers)
      → (flow : AuthFlow) × ((set_auth_flow panic_text d fresh p meta h).auth_flow ≡ some flow)
        × (flow.kind ≡ meta.kind)
        × HasSteps flow.steps p (set_auth_flow panic_text d fresh p meta h)
  unfolding set_auth_flow
  set_auth_flow-HasSteps p meta h =
      let started = with_start panic_text d fresh meta h.on_start p in
      let polled = with_poll panic_text d fresh h.on_poll started in
      let submitted = with_submit panic_text d fresh h.on_submit polled in
      (
        _,
        refl,
        refl,
        HasSteps-append _ _ p started submitted (HasSteps-start meta h.on_start p) (
            HasSteps-append _ _ started polled submitted (HasSteps-poll h.on_poll started)
              (HasSteps-submit h.on_submit polled)),
      )
