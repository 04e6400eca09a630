-- ===== src/Sokel/Plugin.antt =====
-- sokel/sokel.go, sokel/register_typed.go, sokel/capabilities.go: a plugin and its operations.
pub mod Table
use sokel_plugin_sdk.Base.{
  ℕ, Text, codes, same, Bool, true, false, Option, none, some, List, [], ◌∷◌, ◌++◌, Map, put,
  lookup, map, Result, ok, err, ◌>>=◌, ◌>>◌, is_empty, length, ◌==◌, ◌&&◌, if◌then◌else◌,
}
use sokel_plugin_sdk.Contract.Field.{Field, Value}
use sokel_plugin_sdk.Contract.Schema.{Operation}
use sokel_plugin_sdk.Contract.Events.{Event}
use sokel_plugin_sdk.Sokel.Errors.{GoError, wrap, plain}
use sokel_plugin_sdk.Sokel.OpIds.{IdPanic, must_business_op_id}
use sokel_plugin_sdk.Sokel.Triggers.{Script}
use sokel_plugin_sdk.Sokel.Webhook.{WebhookRequest, WebhookResponse}
use sokel_plugin_sdk.Sokel.Frames.{Emission, BufferSink, empty_sink, buffer_all, frames_of, made}

-- The context of a call: the credential, the trace, the file ticket, and the deadline.
pub record Ctx : Type 0 where
  pub credential : Map Text
  pub trace : Map Text
  pub file_ticket : Text
  pub deadline : Option ℕ

-- How a handler ends.
pub data Ending : Type 0 where
  returned : Ending
  failed : GoError → Ending
  panicked : Text → Ending

-- What a call has emitted, and its error, nil if `none`.
pub record Run : Type 0 where
  pub emissions : List Emission
  pub error : Option GoError

pub record OpEntry : Type 0 where
  pub op : Operation
  pub invoke : Ctx → Text → Run

-- `OAuthSpec`
pub record OAuthSpec : Type 0 where
  pub provider : Text
  pub scopes : List Text

-- `authFlowDecl`
pub record AuthFlow : Type 0 where
  pub kind : Text
  pub steps : List Text

-- `sourceEntry`; a run ends with an error or with nil.
pub record Source : Type 0 where
  pub id : Text
  pub label : Text
  pub body : Script (Option GoError)

pub record Config : Type 0 where
  pub endpoint : Text
  pub token : Text
  pub name : Text

pub record Plugin : Type 0 where
  pub version : Text
  pub cfg : Config
  pub ops : List OpEntry
  pub cred_fields : List Field
  pub doc : Text
  pub doc_url : Text
  pub oauth : Option OAuthSpec
  pub auth_flow : Option AuthFlow
  pub events : List Event
  pub events_common : List Field
  pub sources : List Source
  pub capabilities : Map Bool
  pub webhook_fn : Option (WebhookRequest → Script WebhookResponse)
  pub managed : Bool

-- `New`, with a name given
abbrev pub new_plugin : Config → Plugin
new_plugin cfg = record {
  version = [];
  cfg = cfg;
  ops = [];
  cred_fields = [];
  doc = [];
  doc_url = [];
  oauth = none;
  auth_flow = none;
  events = [];
  events_common = [];
  sources = [];
  capabilities = [];
  webhook_fn = none;
  managed = false;
}

-- `if op.Inputs == nil`, first by derivation, then by an empty slice
unfoldable pub filled : Option (List Field) → Option (List Field) → Option (List Field)
filled (some fs) derived = some fs
filled none (some fs) = some fs
filled none none = some []

-- The deferred `recover`; `panic_text` is the message made of the operation, the value and the
-- stack.
recovered : (Text → Text → Text) → Text → Ending → Option GoError
recovered panic_text op_id returned = none
recovered panic_text op_id (failed e) = some e
recovered panic_text op_id (panicked v) = some (plain (panic_text op_id v))

module _ (panic_text : Text → Text → Text) where
  guarded : Text → List Emission × Ending → Run
  unfolding recovered
  guarded op_id (es, ending) = record { emissions = es; error = recovered panic_text op_id ending }

  module _ {In : Type 0} (bind : Text → Result GoError In) where
    unfoldable pub invoke_typed : (Ctx → In → List Emission × Ending) → Text → Ctx → Text → Run
    unfolding guarded
    invoke_typed h op_id ctx input = elim (bind input) [
      | err e ↦ record { emissions = []; error = some (wrap (codes "binding the input failed") e) }
      | ok v ↦ guarded op_id (h ctx v)
    ]

    -- `derived_in` and `derived_out` are what reflection gives for the types.
    unfoldable pub register_typed :
        Option (List Field)
        → Option (List Field)
        → Plugin
        → Operation
        → (Ctx → In → List Emission × Ending)
        → Plugin
    unfolding filled invoke_typed
    register_typed derived_in derived_out p op h =
        let entry : OpEntry = record {
          op = record op {
            inputs = filled op.inputs derived_in;
            outputs = filled op.outputs derived_out;
          };
          invoke = invoke_typed h op.id;
        } in
        record p { ops = p.ops ++ entry ∷ [] }

    unfoldable pub register :
        Option (List Field)
        → Option (List Field)
        → Plugin
        → Operation
        → (Ctx → In → List Emission × Ending)
        → Result IdPanic Plugin
    unfolding register_typed
    register derived_in derived_out p op h =
        must_business_op_id op.id >> ok (register_typed derived_in derived_out p op h)

  unfoldable pub register_op :
      Plugin → Operation → (Ctx → Text → List Emission × Ending) → Result IdPanic Plugin
  unfolding filled guarded
  register_op p op inv =
      let entry : OpEntry = record {
        op = record op { inputs = filled op.inputs none; outputs = filled op.outputs none };
        invoke = λ ctx input. guarded op.id (inv ctx input);
      } in
      let registered = ok (record p { ops = p.ops ++ entry ∷ [] }) in
      if is_empty op.capability then must_business_op_id op.id >> registered else registered

-- The first entry with the id.
unfoldable pub find_by_id : List OpEntry → Text → Option OpEntry
find_by_id [] id = none
find_by_id (e ∷ es) id = if same e.op.id id then some e else find_by_id es id

-- `&p.ops[0]` where there is one operation
unfoldable pub only_entry : List OpEntry → Option OpEntry
only_entry (e ∷ []) = some e
only_entry _ = none

unfoldable pub find : Plugin → Text → Option OpEntry
unfolding find_by_id only_entry
find p id = elim (find_by_id p.ops id) [
  | some e ↦ some e
  | none ↦ if is_empty id then only_entry p.ops else none
]

pub data BufferedError : Type 0 where
  unknown_operation : Text → BufferedError
  from_handler : GoError → BufferedError

buffered : Run → Result BufferedError (Map Value)
buffered r = elim r.error [
  | some e ↦ err (from_handler e)
  | none ↦ ok (made (buffer_all empty_sink (frames_of r.emissions)).merged)
]

unfoldable pub invoke_buffered : Plugin → Ctx → Text → Text → Result BufferedError (Map Value)
unfolding buffered
invoke_buffered p ctx operation input = elim (find p operation) [
  | none ↦ err (unknown_operation operation)
  | some e ↦ buffered (e.invoke ctx input)
]

-- The operations reported at registration.
unfoldable pub contract : Plugin → List Operation
contract p = map (λ (e : OpEntry). e.op) p.ops

abbrev cap_webhook : Text
cap_webhook = codes "webhook"

overlay : Map Bool → Map Bool → Map Bool
overlay base [] = base
overlay base ((k, v) ∷ m) = overlay (put k v base) m

abbrev nil_if_empty : Map Bool → Option (Map Bool)
nil_if_empty [] = none
nil_if_empty (e ∷ m) = some (e ∷ m)

-- A nil map is `none`.
unfoldable pub capabilities_contract : Plugin → Option (Map Bool)
unfolding overlay
capabilities_contract p = nil_if_empty (elim p.webhook_fn [
  | none ↦ p.capabilities
  | some fn ↦ overlay ((cap_webhook, true) ∷ []) p.capabilities
])
