-- ===== src/Gen/Declaration.antt =====
-- internal/gen/manifest.go: the declaration of a plugin, and its operations on the wire.
use sokel_plugin_sdk.Base.{
  ℕ, Text, codes, Bool, Option, none, some, List, [], ◌∷◌, ◌++◌, map, ◌==◌, if◌then◌else◌, Map, ℤ,
}
use sokel_plugin_sdk.Gen.Field.{IrFields}
use sokel_plugin_sdk.Gen.Names.{export_name, cap_type_prefix}

pub record PluginDecl : Type 0 where
  pub org : Text
  pub name : Text
  pub label : Text
  pub desc : Text
  pub version : Text
  pub doc : Text
  pub doc_url : Text
  pub icon : Text

-- `place` is `In`.
pub record InjectDecl : Type 0 where
  pub place : Text
  pub key : Text
  pub value : Text
  pub user : Text
  pub pass : Text

pub record AuthDecl : Type 0 where
  pub kind : Text
  pub provider : Text
  pub scopes : List Text

pub record CredentialDecl : Type 0 where
  pub auth : Option AuthDecl
  pub fields : IrFields
  pub inject : List InjectDecl

pub record EventDecl : Type 0 where
  pub id : Text
  pub label : Text
  pub desc : Text
  pub fields : IrFields

pub record DeployTarget : Type 0 where
  pub kind : Text
  pub ref : Text

pub record DeployEnv : Type 0 where
  pub name : Text
  pub desc : Text
  pub required : Bool
  pub default : Text

pub record DeploymentDecl : Type 0 where
  pub targets : List DeployTarget
  pub env : List DeployEnv
  pub note : Text

pub record TransportDecl : Type 0 where
  pub kind : Text
  pub deployment : Option DeploymentDecl

pub record HttpMapping : Type 0 where
  pub method : Text
  pub path : Text
  pub body_type : Text

pub record GqlMapping : Type 0 where
  pub query : Text
  pub operation_name : Text
  pub endpoint : Text

pub record HeaderKv : Type 0 where
  pub key : Text
  pub value : Text

pub record OperationDecl : Type 0 where
  pub id : Text
  pub label : Text
  pub desc : Text
  pub stream : Bool
  pub internal : Bool
  pub timeout_sec : ℤ
  pub inputs : IrFields
  pub outputs : IrFields
  pub protocol : Text
  pub http : Option HttpMapping
  pub graphql : Option GqlMapping
  pub headers : List HeaderKv

pub record CapabilityDecl : Type 0 where
  pub capability : Text
  pub operations : List OperationDecl

pub record CodegenDecl : Type 0 where
  pub lang : Text
  pub out : Text

pub record Manifest : Type 0 where
  pub plugin : PluginDecl
  pub capabilities : Map Bool
  pub credential : Option CredentialDecl
  pub events : List EventDecl
  pub events_common : List Text
  pub operations : List OperationDecl
  pub implements : List CapabilityDecl
  pub transports : List TransportDecl
  pub deployment : Option DeploymentDecl
  pub codegen : List CodegenDecl
  pub locales : Map (Map Text)
  pub path : Text

-- `s[:strings.LastIndex(s, sep)]`, where there is one.
unfoldable before_last : ℕ → Text → Option Text
before_last sep [] = none
before_last sep (c ∷ s) = elim (before_last sep s) [
  | some p ↦ some (c ∷ p)
  | none ↦ if c == sep then some [] else none
]

unfoldable pub parent : CapabilityDecl → Text
unfolding before_last
parent c = elim (before_last b'/' c.capability) [ none ↦ [] | some p ↦ p ]

unfoldable wire_id : CapabilityDecl → Text → Text
wire_id c slot = c.capability ++ (b'.' ∷ slot)

pub record FlatOp : Type 0 where
  pub decl : OperationDecl
  pub capability : Text
  pub type_name : Text

unfoldable pub flat_business : OperationDecl → FlatOp
flat_business op = record { decl = op; capability = []; type_name = export_name op.id }

unfoldable pub flat_slot : CapabilityDecl → OperationDecl → FlatOp
unfolding wire_id
flat_slot c op = record {
  decl = record op { id = wire_id c op.id };
  capability = c.capability;
  type_name = export_name (cap_type_prefix c.capability ++ (b'_' ∷ op.id));
}

-- The loops over the capabilities and their operations.
unfoldable pub flat_slots : List CapabilityDecl → List FlatOp
unfolding flat_slot
flat_slots [] = []
flat_slots (c ∷ cs) = map (flat_slot c) c.operations ++ flat_slots cs

unfoldable pub all_operations : Manifest → List FlatOp
unfolding flat_business flat_slots
all_operations m = map flat_business m.operations ++ flat_slots m.implements

-- One operation of the generator's IR.
pub record OpIo : Type 0 where
  pub op_id : Text
  pub label : Text
  pub desc : Text
  pub stream : Bool
  pub internal : Bool
  pub timeout_sec : ℤ
  pub in_type : Text
  pub out_type : Text
  pub inputs : IrFields
  pub outputs : IrFields

unfoldable op_io : FlatOp → OpIo
op_io fo = record {
  op_id = fo.decl.id;
  label = fo.decl.label;
  desc = fo.decl.desc;
  stream = fo.decl.stream;
  internal = fo.decl.internal;
  timeout_sec = fo.decl.timeout_sec;
  in_type = fo.type_name ++ codes "In";
  out_type = fo.type_name ++ codes "Out";
  inputs = fo.decl.inputs;
  outputs = fo.decl.outputs;
}

unfoldable pub ops : Manifest → List OpIo
unfolding op_io all_operations
ops m = map op_io (all_operations m)
