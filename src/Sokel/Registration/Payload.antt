-- ===== src/Sokel/Registration/Payload.antt =====
-- `registerBody` of sokel/transport_nats.go: what a replica reports of itself.
use sokel_plugin_sdk.Base.{
  ℕ, Text, codes, Bool, Option, none, some, List, [], ◌∷◌, Map, is_empty, if◌then◌else◌,
}
use sokel_plugin_sdk.Contract.Field.{Field}
use sokel_plugin_sdk.Contract.Events.{Event}
use sokel_plugin_sdk.Contract.Schema.{Operation}
use sokel_plugin_sdk.Sokel.Board.{Board, SourceState, snapshot}
use sokel_plugin_sdk.Sokel.Plugin.{Plugin, OAuthSpec, AuthFlow, contract, capabilities_contract}
use sokel_plugin_sdk.Sokel.Access.{wire_protocol}

-- The first text that is not empty.
unfoldable first_non_empty : List Text → Text
first_non_empty [] = []
first_non_empty (v ∷ vs) = if is_empty v then first_non_empty vs else v

-- What the process knows of itself: its start time, and the environment variables `SOKEL_REGION` and
-- `SOKEL_VERSION`, and `sdkIdent`.
pub record Process : Type 0 where
  pub started_at : Text
  pub region : Text
  pub env_version : Text
  pub sdk_ident : Text

-- The payload; `source_states` is there only for a plugin with sources.
pub record RegisterBody : Type 0 where
  pub token : Text
  pub instance_id : Text
  pub host : Text
  pub started_at : Text
  pub region : Text
  pub version : Text
  pub transport : Text
  pub operations : List Operation
  pub managed : Bool
  pub credential_schema : List Field
  pub oauth : Option OAuthSpec
  pub auth_flow : Option AuthFlow
  pub events : List Event
  pub events_common : List Field
  pub capabilities : Option (Map Bool)
  pub doc : Text
  pub doc_url : Text
  pub protocol : ℕ
  pub sdk : Text
  pub source_states : Option (List SourceState)

unfoldable register_body : Process → Plugin → Text → Text → List Operation → RegisterBody
unfolding first_non_empty capabilities_contract
register_body proc p instance_id host ops = record {
  token = p.cfg.token;
  instance_id = instance_id;
  host = host;
  started_at = proc.started_at;
  region = proc.region;
  version = first_non_empty (p.version ∷ proc.env_version ∷ []);
  transport = codes "nats";
  operations = ops;
  managed = p.managed;
  credential_schema = p.cred_fields;
  oauth = p.oauth;
  auth_flow = p.auth_flow;
  events = p.events;
  events_common = p.events_common;
  capabilities = capabilities_contract p;
  doc = p.doc;
  doc_url = p.doc_url;
  protocol = wire_protocol;
  sdk = proc.sdk_ident;
  source_states = none;
}

-- `register` up to the request.
unfoldable full_body : Process → Plugin → Text → Text → Board → RegisterBody
unfolding register_body
full_body proc p instance_id host board =
    let body = register_body proc p instance_id host (contract p) in
    if is_empty p.sources then body else record body { source_states = some (snapshot board) }
