-- ===== src/Sokel/Triggers/Routing.antt =====
-- The messages that the context of a source publishes, in sokel/event.go.
use sokel_plugin_sdk.Base.{
  Text, same, same_iff, Bool, true, false, Option, List, [], ◌∷◌, Map, put, index, All, All-append,
  ◌≡◌, ◌≢◌, inl, inr, refl, arith, Bool-cases, Option-cases, ◌||◌, is_empty, ne_of_is_empty,
}
use sokel_plugin_sdk.Contract.Events.{Event, is_event_id}
use sokel_plugin_sdk.Sokel.Errors.{GoError}
use sokel_plugin_sdk.Sokel.Board.{Board}
use sokel_plugin_sdk.Sokel.Triggers.{
  Payload, Published, on_trigger, on_credential_update, Bus, SourceCtx, valid_from, hand_over,
  trigger, update_credential, report_status, Script, finish, ask_trigger, ask_update, report,
  run_script, trigger_msg, update_msg, from_marshal, CtxError,
}

index-put :
    (k j : Text) (m : Map Bool) → index false j (put k true m) ≡ (same k j || index false j m)
unfolding index put
index-put k j [] = ground arith
index-put k j ((i, w) ∷ m) =
    ground (arith, same_iff k j, same_iff i k, same_iff i j, index-put k j m)

index-valid_from :
    (k : Text) (valid : Map Bool) (es : List Event)
    → index false k (valid_from valid es) ≡ (index false k valid || is_event_id es k)
unfolding valid_from is_event_id
index-valid_from k valid [] = ground arith
index-valid_from k valid (e ∷ es) =
    ground (arith, index-valid_from k (put e.id true valid) es, index-put e.id k valid)

-- The routing of a message: the token of the plugin and the credential of the instance; an event
-- among the valid ones; and a write-back only where a credential is bound.
abbrev pub IsRouted : SourceCtx → Published → Type 0
IsRouted c (on_trigger m) =
    (m.token ≡ c.token) × (m.credential_id ≡ c.cred_id) × (index false m.event c.valid ≡ true)
IsRouted c (on_credential_update m) =
    (m.token ≡ c.token) × (m.credential_id ≡ c.cred_id) × (c.cred_id ≢ []) × (m.patch ≢ [])

hand_over-All :
    (P : Published → Type 0) (bus : Bus) (m : Published) (f : GoError → CtxError)
    → P m
    → All P (hand_over bus m f).1
unfolding hand_over
hand_over-All P bus m f p = elim (Option-cases (bus.marshal m)) [
  | inl fine ↦ rw (fine, hand_over) (p, tt)
  | inr (e, refused) ↦ rw (refused, hand_over) tt
]

trigger-IsRouted :
    (c : SourceCtx) (bus : Bus) (event event_id : Text) (payload : Payload)
    → All (IsRouted c) (trigger c bus event event_id payload).1
unfolding trigger
trigger-IsRouted c bus event event_id payload = elim (Bool-cases (index false event c.valid)) [
  | inl y ↦ rw y (
      hand_over-All (IsRouted c) bus (on_trigger (trigger_msg c event event_id payload)) _
        (refl, refl, y))
  | inr n ↦ rw n tt
]

update_credential-IsRouted :
    (c : SourceCtx) (bus : Bus) (patch : Map Text)
    → All (IsRouted c) (update_credential c bus patch).1
unfolding update_credential
update_credential-IsRouted c bus patch = elim (Bool-cases (is_empty c.cred_id)) [
  | inl unbound ↦ rw unbound tt
  | inr bound ↦ elim (Bool-cases (is_empty patch)) [
    | inl nothing ↦ rw (bound, nothing) tt
    | inr some_patch ↦
        rw (bound, some_patch)
          (hand_over-All (IsRouted c) bus (on_credential_update (update_msg c patch)) from_marshal
            (refl, refl, ne_of_is_empty c.cred_id bound, ne_of_is_empty patch some_patch))
  ]
]

module _ {R : Type 0} (now : Text) (c : SourceCtx) (bus : Bus) where
  -- Whatever a source's code does, each message that it publishes carries the plugin's token and
  -- the instance's credential, names a valid event, and is a write-back only of a bound credential.
  pub run_script-IsRouted :
      (s : Script R) (b : Option Board) → All (IsRouted c) (run_script now c bus s b).published
  unfolding run_script
  run_script-IsRouted (finish r) b = tt
  run_script-IsRouted (ask_trigger event event_id payload next) b =
      All-append (IsRouted c) _ _ (trigger-IsRouted c bus event event_id payload)
        (run_script-IsRouted (next _) b)
  run_script-IsRouted (ask_update patch next) b =
      All-append (IsRouted c) _ _ (update_credential-IsRouted c bus patch)
        (run_script-IsRouted (next _) b)
  run_script-IsRouted (report status msg next) b =
      run_script-IsRouted next (report_status now c status msg b)
