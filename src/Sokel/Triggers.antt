-- ===== src/Sokel/Triggers.antt =====
-- sokel/event.go: the context of an event source, and what a source's code does through it.
pub mod Routing
use sokel_plugin_sdk.Base.{
  ℕ, Text, codes, Bool, true, false, not, Option, none, some, List, [], ◌∷◌, ◌++◌, Map, lookup, put,
  is_empty, index, if◌then◌else◌,
}
use sokel_plugin_sdk.Contract.Field.{Value}
use sokel_plugin_sdk.Contract.Events.{Event}
use sokel_plugin_sdk.Sokel.Errors.{GoError}
use sokel_plugin_sdk.Sokel.Board.{Board, set_state}

-- The payload of `Trigger`: nil, a value that `structToVars` turns into a map, or any other.
pub data Payload : Type 0 where
  no_payload : Payload
  struct_payload : Map Value → Payload
  other_payload : Value → Payload

pub record TriggerMsg : Type 0 where
  pub token : Text
  pub event : Text
  pub event_id : Text
  pub credential_id : Text
  pub payload : Payload

pub record UpdateMsg : Type 0 where
  pub token : Text
  pub credential_id : Text
  pub patch : Map Text

-- A message with its subject.
pub data Published : Type 0 where
  on_trigger : TriggerMsg → Published
  on_credential_update : UpdateMsg → Published

-- The connection: which messages cannot be serialised, and which cannot be published.
pub record Bus : Type 0 where
  pub marshal : Published → Option GoError
  pub publish : Published → Option GoError

pub record SourceCtx : Type 0 where
  pub token : Text
  pub valid : Map Bool
  pub cred : Map Text
  pub cred_id : Text
  pub source_id : Text

pub data CtxError : Type 0 where
  undeclared_event : Text → CtxError
  serialising : Text → GoError → CtxError
  no_bound_credential : CtxError
  from_marshal : GoError → CtxError
  from_publish : GoError → CtxError

-- `valid[e.ID] = true`, over the declared events
unfoldable pub valid_from : Map Bool → List Event → Map Bool
valid_from valid [] = valid
valid_from valid (e ∷ es) = valid_from (put e.id true valid) es

-- A call's error, nil if `none`, and the messages that it put on the bus.
abbrev Sent : Type 0
Sent = Option CtxError × List Published

publish_error : Option GoError → Option CtxError
publish_error none = none
publish_error (some e) = some (from_publish e)

-- Publishing `m`, once it is serialised.
hand_over : Bus → Published → (GoError → CtxError) → Sent
unfolding publish_error
hand_over bus m refused = elim (bus.marshal m) [
  | some e ↦ (some (refused e), [])
  | none ↦ (publish_error (bus.publish m), m ∷ [])
]

abbrev pub trigger_msg : SourceCtx → Text → Text → Payload → TriggerMsg
trigger_msg c event event_id payload = record {
  token = c.token;
  event = event;
  event_id = event_id;
  credential_id = c.cred_id;
  payload = payload;
}

abbrev pub update_msg : SourceCtx → Map Text → UpdateMsg
update_msg c patch = record { token = c.token; credential_id = c.cred_id; patch = patch }

unfoldable pub trigger : SourceCtx → Bus → Text → Text → Payload → Sent
unfolding hand_over
trigger c bus event event_id payload =
    if not (index false event c.valid)
    then (some (undeclared_event event), [])
    else hand_over bus (on_trigger (trigger_msg c event event_id payload)) (serialising event)

unfoldable pub update_credential : SourceCtx → Bus → Map Text → Sent
unfolding hand_over
update_credential c bus patch =
    if is_empty c.cred_id
    then (some no_bound_credential, [])
    else if is_empty patch
    then (none, [])
    else hand_over bus (on_credential_update (update_msg c patch)) from_marshal

-- A nil board is `none`.
unfoldable pub report_status : Text → SourceCtx → Text → Text → Option Board → Option Board
report_status now c status msg none = none
report_status now c status msg (some b) = some (set_state now c.source_id c.cred_id status msg b)

-- The author's code: each call is answered before it goes on.
pub data Script (R : Type 0) : Type 0 where
  finish : R → Script R
  ask_trigger : Text → Text → Payload → (Option CtxError → Script R) → Script R
  ask_update : Map Text → (Option CtxError → Script R) → Script R
  report : Text → Text → Script R → Script R

-- What a run of a script gives: its result, the messages published, and the board.
pub record Ran (R : Type 0) : Type 0 where
  pub result : R
  pub published : List Published
  pub board : Option Board

module _ {R : Type 0} (now : Text) (c : SourceCtx) (bus : Bus) where
  unfoldable pub run_script : Script R → Option Board → Ran R
  run_script (finish r) b = record { result = r; published = []; board = b }
  run_script (ask_trigger event event_id payload next) b =
      let (answer, sent) = trigger c bus event event_id payload in
      let ran = run_script (next answer) b in record ran { published = sent ++ ran.published }
  run_script (ask_update patch next) b =
      let (answer, sent) = update_credential c bus patch in
      let ran = run_script (next answer) b in record ran { published = sent ++ ran.published }
  run_script (report status msg next) b = run_script next (report_status now c status msg b)
