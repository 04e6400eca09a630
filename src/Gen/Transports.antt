-- ===== src/Gen/Transports.antt =====
-- internal/gen/manifest.go: the checks of the transports, the protocols and the deployment.
use sokel_plugin_sdk.Base.{
  ℕ, suc, Text, codes, same, trim_space, Bool, true, false, not, ◌&&◌, ◌||◌, Option, none, some,
  List, [], ◌∷◌, ◌++◌, is_empty, if◌then◌else◌,
}
use sokel_plugin_sdk.Gen.Declaration.{
  TransportDecl, DeploymentDecl, DeployTarget, DeployEnv, OperationDecl, FlatOp,
}
use sokel_plugin_sdk.Gen.Report.{report}
use sokel_plugin_sdk.Gen.Check.{has_key}
use sokel_plugin_sdk.Gen.Problem.{
  Problem, transport_without_kind, unknown_transport, repeated_transport, transport_with_deployment,
  unmapped_operation, unknown_protocol, deployment_without_targets, unknown_target,
  target_without_ref, env_without_name, reserved_env,
}

-- `transportKinds`
abbrev transport_kinds : List Text
transport_kinds =
    codes "nats" ∷ codes "http" ∷ codes "http_sse" ∷ codes "graphql" ∷ codes "mcp" ∷ []

-- `deployKinds`
abbrev deploy_kinds : List Text
deploy_kinds = codes "container" ∷ codes "binary" ∷ codes "pip" ∷ codes "npm" ∷ []

-- `reservedDeployEnv`
abbrev reserved_deploy_env : List Text
reserved_deploy_env =
    codes "SOKEL_ENDPOINT"
    ∷ codes "SOKEL_TOKEN"
    ∷ codes "SOKEL_NATS_TOKEN"
    ∷ codes "SOKEL_INSTANCE_ID"
    ∷ []

-- `x == nil` for a pointer
abbrev pub is_nil {ℓ} : {A : Type ℓ} → Option A → Bool
is_nil none = true
is_nil (some a) = false

-- What the loop over the transports has found so far: `errs`, `seenT` and `callOut`.
pub record TransportScan : Type 0 where
  pub problems : List Problem
  pub seen : List Text
  pub call_out : Bool

-- The `switch`, whose cases go on to the next transport.
unfoldable transport_fault : ℕ → List Text → Text → Option Problem
unfolding has_key
transport_fault i seen kind =
    if is_empty kind
    then some (transport_without_kind i)
    else if not (has_key transport_kinds kind)
    then some (unknown_transport i kind)
    else if has_key seen kind
    then some (repeated_transport kind)
    else none

unfoldable scan_transport : ℕ → TransportDecl → TransportScan → TransportScan
unfolding transport_fault
scan_transport i t s = elim (transport_fault i s.seen t.kind) [
  | some p ↦ record s { problems = s.problems ++ p ∷ [] }
  | none ↦ if same t.kind (codes "nats") then record s { seen = t.kind ∷ s.seen } else record {
    problems =
        s.problems ++ report (not (is_nil t.deployment)) (transport_with_deployment i t.kind);
    seen = t.kind ∷ s.seen;
    call_out = s.call_out || not (same t.kind (codes "mcp"));
  }
]

unfoldable pub scan_transports : ℕ → List TransportDecl → TransportScan → TransportScan
unfolding scan_transport
scan_transports i [] s = s
scan_transports i (t ∷ ts) s = scan_transports (suc i) ts (scan_transport i t s)

-- `op.HTTP == nil && op.GraphQL == nil && op.Protocol == ""`
abbrev pub is_unmapped : OperationDecl → Bool
is_unmapped op = is_nil op.http && (is_nil op.graphql && is_empty op.protocol)

unfoldable pub unmapped_problems : List FlatOp → List Problem
unmapped_problems [] = []
unmapped_problems (fo ∷ fos) =
    report (is_unmapped fo.decl) (unmapped_operation fo.decl.id) ++ unmapped_problems fos

unfoldable pub protocol_problems : List FlatOp → List Problem
protocol_problems [] = []
protocol_problems (fo ∷ fos) =
    let p = fo.decl.protocol in
    report (not (is_empty p) && (not (same p (codes "http")) && not (same p (codes "graphql"))))
      (unknown_protocol fo.decl.id p)
    ++ protocol_problems fos

unfoldable target_problems : ℕ → List DeployTarget → List Problem
unfolding has_key
target_problems i [] = []
target_problems i (t ∷ ts) =
    report (not (has_key deploy_kinds t.kind)) (unknown_target i t.kind)
    ++ (report (is_empty (trim_space t.ref)) (target_without_ref i) ++ target_problems (suc i) ts)

unfoldable env_problems : List DeployEnv → List Problem
unfolding has_key
env_problems [] = []
env_problems (e ∷ es) =
    (if is_empty (trim_space e.name)
      then env_without_name ∷ []
      else report (has_key reserved_deploy_env e.name) (reserved_env e.name))
    ++ env_problems es

unfoldable pub deployment_problems : Option DeploymentDecl → List Problem
unfolding target_problems env_problems
deployment_problems none = []
deployment_problems (some d) =
    report (is_empty d.targets) deployment_without_targets
    ++ (target_problems 0 d.targets ++ env_problems d.env)
