-- ===== src/Sokel/AuthFlows.antt =====
-- sokel/auth.go and `registerReserved` of sokel/sokel.go: the flow by which a user obtains a
-- credential, on operations with reserved ids.
pub mod Steps
pub mod Session
use sokel_plugin_sdk.Base.{
  Text, codes, same, Bool, true, false, not, ◌&&◌, Option, none, some, List, [], ◌∷◌, ◌++◌, Map,
  Result, ok, err, is_empty, if◌then◌else◌,
}
use sokel_plugin_sdk.Contract.Field.{Value, bool, num, str, obj, Members, end, member, Field}
use sokel_plugin_sdk.Contract.Schema.{Operation}
use sokel_plugin_sdk.Sokel.Errors.{GoError, plain}
use sokel_plugin_sdk.Sokel.Frames.{Emission, vars}
use sokel_plugin_sdk.Sokel.Plugin.{
  Ctx, Ending, returned, failed, Plugin, AuthFlow, OAuthSpec, register_typed,
}

-- `contract.AuthMeta`
pub record AuthMeta : Type 0 where
  pub kind : Text
  pub steps : List Text
  pub provider : Text
  pub scopes : List Text

-- `plugin.AuthChallenge`; `expires_in` is the literal of the number.
pub record AuthChallenge : Type 0 where
  pub auth_id : Text
  pub kind : Text
  pub qr_image : Text
  pub prompt : Text
  pub expires_in : Text

-- `plugin.AuthState`; `session` is the JSON value of its bytes, if there are any.
pub record AuthState : Type 0 where
  pub status : Text
  pub session : Option Value

-- `plugin.AuthHandlers`; a nil pointer that a handler returns is `none`.
pub record AuthHandlers : Type 0 where
  pub on_start : Option (Ctx → Result GoError (Option AuthChallenge))
  pub on_poll : Option (Ctx → Text → Result GoError (Option AuthState))
  pub on_submit : Option (Ctx → Text → Text → Result GoError (Unit {0}))

abbrev pub auth_confirmed : Text
auth_confirmed = codes "confirmed"

abbrev pub auth_pending : Text
auth_pending = codes "pending"

or_text : Text → Text → Text
or_text a b = if is_empty a then b else a

-- `Emitter.Vars` after a handler that returned a result, in `registerReserved`.
unfoldable pub reserved_run :
    {Out : Type 0} → (Out → Map Value) → Result GoError Out → List Emission × Ending
reserved_run to_vars (err e) = ([], failed e)
reserved_run to_vars (ok out) = (vars (some (to_vars out)) ∷ [], returned)

-- `authStartOut`
pub record StartOut : Type 0 where
  pub auth_id : Text
  pub challenge : Value
  pub expires_in : Text

unfoldable pub start_vars : StartOut → Map Value
start_vars out =
    (codes "auth_id", str out.auth_id)
    ∷ (codes "challenge", out.challenge)
    ∷ (codes "expires_in", num out.expires_in)
    ∷ []

-- The handler of `auth.start`; `fresh` is what `newAuthID` gives.
unfoldable pub start_body :
    Text → Text → Result GoError (Option AuthChallenge) → Result GoError StartOut
unfolding or_text
start_body declared_kind fresh (err e) = err e
start_body declared_kind fresh (ok none) =
    err (plain (codes "the auth flow's Start returned no challenge"))
start_body declared_kind fresh (ok (some ch)) = ok (record {
  auth_id = or_text ch.auth_id fresh;
  challenge = obj (
      member (codes "kind") (str (or_text ch.kind declared_kind)) (
        member (codes "qr_image") (str ch.qr_image) (member (codes "prompt") (str ch.prompt) end)));
  expires_in = ch.expires_in;
})

-- `authPollOut`
pub record PollOut : Type 0 where
  pub status : Text
  pub session : Option Value

-- A nil interface is left out.
unfoldable pub poll_vars : PollOut → Map Value
poll_vars out = elim out.session [
  | none ↦ (codes "status", str out.status) ∷ []
  | some v ↦ (codes "status", str out.status) ∷ (codes "session", v) ∷ []
]

-- The handler of `auth.poll`
unfoldable pub poll_body : Result GoError (Option AuthState) → Result GoError PollOut
poll_body (err e) = err e
poll_body (ok none) = ok (record { status = auth_pending; session = none })
poll_body (ok (some st)) =
    if same st.status auth_confirmed
    then ok (record { status = st.status; session = st.session })
    else ok (record { status = st.status; session = none })

-- The handler of `auth.submit`
unfoldable pub submit_body : Result GoError (Unit {0}) → Result GoError Bool
submit_body (err e) = err e
submit_body (ok u) = ok true

unfoldable pub submit_vars : Bool → Map Value
submit_vars done = (codes "ok", bool done) ∷ []

reserved_op : Text → Text → Operation
reserved_op id label = record {
  id = id;
  label = label;
  desc = [];
  stream = false;
  internal = true;
  timeout_sec = 0;
  capability = [];
  inputs = none;
  outputs = none;
}

-- What reflection gives for the types of the three operations: the binding of their inputs, and
-- their fields.
pub record Derived : Type 0 where
  pub bind_start : Text → Result GoError (Unit {0})
  pub bind_poll : Text → Result GoError Text
  pub bind_submit : Text → Result GoError (Text × Text)
  pub fields : Text → Option (List Field) × Option (List Field)

module _ (panic_text : Text → Text → Text) (d : Derived) (fresh : Text) where
  with_start : AuthMeta → Option (Ctx → Result GoError (Option AuthChallenge)) → Plugin → Plugin
  unfolding register_typed reserved_op
  with_start meta none p = p
  with_start meta (some h) p =
      let (ins, outs) = d.fields (codes "auth.start") in
      register_typed panic_text d.bind_start ins outs p
        (reserved_op (codes "auth.start") (codes "Start authentication"))
        (λ ctx u. reserved_run start_vars (start_body meta.kind fresh (h ctx)))

  with_poll : Option (Ctx → Text → Result GoError (Option AuthState)) → Plugin → Plugin
  unfolding register_typed reserved_op
  with_poll none p = p
  with_poll (some h) p =
      let (ins, outs) = d.fields (codes "auth.poll") in
      register_typed panic_text d.bind_poll ins outs p
        (reserved_op (codes "auth.poll") (codes "Poll authentication"))
        (λ ctx auth_id. reserved_run poll_vars (poll_body (h ctx auth_id)))

  with_submit : Option (Ctx → Text → Text → Result GoError (Unit {0})) → Plugin → Plugin
  unfolding register_typed reserved_op
  with_submit none p = p
  with_submit (some h) p =
      let (ins, outs) = d.fields (codes "auth.submit") in
      register_typed panic_text d.bind_submit ins outs p
        (reserved_op (codes "auth.submit") (codes "Submit authentication input"))
        (λ ctx given. reserved_run submit_vars (submit_body (h ctx given.0 given.1)))

  step_if : {A : Type 0} → Text → Option A → List Text
  step_if step none = []
  step_if step (some h) = step ∷ []

  oauth_of : AuthMeta → Option OAuthSpec → Option OAuthSpec
  oauth_of meta before =
      if is_empty meta.provider
      then before
      else some (record { provider = meta.provider; scopes = meta.scopes })

  unfoldable pub set_auth_flow : Plugin → AuthMeta → AuthHandlers → Plugin
  unfolding with_start with_poll with_submit step_if oauth_of
  set_auth_flow p meta h =
      let registered =
        with_submit h.on_submit (with_poll h.on_poll (with_start meta h.on_start p)) in
      record registered {
        auth_flow = some (record {
          kind = meta.kind;
          steps =
              step_if (codes "start") h.on_start
              ++ (step_if (codes "poll") h.on_poll ++ step_if (codes "submit") h.on_submit);
        });
        oauth = oauth_of meta registered.oauth;
      }
