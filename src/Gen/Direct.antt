-- ===== src/Gen/Direct.antt =====
-- internal/gen/manifest.go: `validateDirectCall`.
pub mod Accepted
use sokel_plugin_sdk.Base.{
  ℕ, suc, Text, codes, same, trim_space, Bool, true, false, not, ◌&&◌, ◌||◌, Option, none, some,
  List, [], ◌∷◌, ◌++◌, map, is_empty, ◌==◌, if◌then◌else◌,
}
use sokel_plugin_sdk.Gen.Field.{IrAttributes, IrFields, field_list, ir_attributes}
use sokel_plugin_sdk.Gen.Declaration.{
  OperationDecl, HttpMapping, FlatOp, CredentialDecl, InjectDecl,
}
use sokel_plugin_sdk.Gen.Patterns.{is_field_char, is_letter, is_number, is_from_path}
use sokel_plugin_sdk.Gen.Strings.{contains}
use sokel_plugin_sdk.Gen.Report.{report}
use sokel_plugin_sdk.Gen.Check.{has_key}
use sokel_plugin_sdk.Gen.Transports.{is_unmapped}
use sokel_plugin_sdk.Gen.Problem.{
  Problem, param_without_mapping, input_with_from, unknown_place, place_without_mapping,
  place_not_in_path, unfilled_placeholder, output_with_place, from_without_mapping, invalid_from,
  unknown_inject_place, basic_without_user, inject_without_key, unknown_inject_field,
  literal_secret,
}

-- `inputPlaces`
abbrev input_places : List Text
input_places = codes "path" ∷ codes "query" ∷ codes "header" ∷ codes "body" ∷ []

-- `injectPlaces`
abbrev pub inject_places : List Text
inject_places = codes "header" ∷ codes "query" ∷ codes "body" ∷ codes "basic" ∷ []

-- The matches of `pathParamRe`: the texts between a `{` and the next `}` with no brace between and
-- not empty. The first argument is what was read since the last `{`, if there was one.
unfoldable path_params_from : Option Text → Text → List Text
path_params_from open_at [] = []
path_params_from open_at (c ∷ s) = elim (c == b'{') [
  | true ↦ path_params_from (some []) s
  | false ↦ elim open_at [
    | none ↦ path_params_from none s
    | some name ↦ elim (c == b'}') [
      | false ↦ path_params_from (some (name ++ c ∷ [])) s
      | true ↦ let rest = path_params_from none s in if is_empty name then rest else name ∷ rest
    ]
  ]
]

unfoldable pub path_params : Text → List Text
unfolding path_params_from
path_params path = path_params_from none path

-- What has been read of a match of `injectVarRe`.
pub data VarState : Type 0 where
  outside : VarState
  one_brace : VarState
  two_braces : VarState
  spaces : VarState
  reading : Text → VarState
  read : Text → VarState
  closing : Text → VarState

-- `\s` of package regexp
abbrev is_re_space : ℕ → Bool
is_re_space c = (c == 9 || c == 10) || (c == 12 || (c == 13 || c == 32))

-- The state when the byte fits no match that is going on: `{` begins one.
abbrev begin_var : ℕ → VarState
begin_var c = if c == b'{' then one_brace else outside

unfoldable var_step : VarState → ℕ → VarState
unfolding is_field_char
var_step outside c = begin_var c
var_step one_brace c = if c == b'{' then two_braces else outside
var_step two_braces c =
    if c == b'{'
    then two_braces
    else if is_re_space c
    then spaces
    else if is_field_char c
    then reading (c ∷ [])
    else outside
var_step spaces c =
    if is_re_space c then spaces else if is_field_char c then reading (c ∷ []) else begin_var c
var_step (reading w) c =
    if is_field_char c
    then reading (w ++ c ∷ [])
    else if is_re_space c
    then read w
    else if c == b'}'
    then closing w
    else begin_var c
var_step (read w) c = if is_re_space c then read w else if c == b'}' then closing w else begin_var c
var_step (closing w) c = begin_var c

-- The name of a match that the byte ends.
abbrev ended : VarState → ℕ → Option Text
ended (closing w) c = if c == b'}' then some w else none
ended st c = none

-- The matches of `injectVarRe`
unfoldable inject_vars_from : VarState → Text → List Text
unfolding var_step
inject_vars_from st [] = []
inject_vars_from st (c ∷ s) = elim (ended st c) [
  | some w ↦ w ∷ inject_vars_from outside s
  | none ↦ inject_vars_from (var_step st c) s
]

unfoldable pub inject_vars : Text → List Text
unfolding inject_vars_from
inject_vars s = inject_vars_from outside s

-- `op.HTTP.Path`, empty where there is no mapping: the operation is mapped if it is not.
abbrev pub http_path : OperationDecl → Text
http_path op = elim op.http [ none ↦ [] | some h ↦ h.path ]

-- The name of an input on the wire
abbrev pub wire_name : IrAttributes → Text
wire_name a = if is_empty a.param then a.name else a.param

unfoldable place_problems : OperationDecl → IrAttributes → List Problem
unfolding has_key contains
place_problems op a =
    let path = http_path op in
    if is_empty a.place
    then []
    else if not (has_key input_places a.place)
    then unknown_place op.id a.name a.place ∷ []
    else if is_empty path
    then place_without_mapping op.id a.name ∷ []
    else report
        (same a.place (codes "path") && not (contains path (b'{' ∷ wire_name a ++ b'}' ∷ [])))
        (place_not_in_path op.id a.name (wire_name a))

unfoldable pub input_problems : OperationDecl → IrAttributes → List Problem
unfolding place_problems
input_problems op a =
    report (not (is_empty a.param) && is_empty (http_path op)) (param_without_mapping op.id a.name)
    ++ (report (not (is_empty a.from_path)) (input_with_from op.id a.name) ++ place_problems op a)

unfoldable output_problems : OperationDecl → IrAttributes → List Problem
output_problems op a =
    report (not (is_empty a.place) || not (is_empty a.param)) (output_with_place op.id a.name)
    ++ (if is_empty a.from_path
        then []
        else if is_unmapped op
        then from_without_mapping op.id a.name ∷ []
        else report (not (is_from_path a.from_path)) (invalid_from op.id a.name a.from_path))

unfoldable pub placeholder_problems : OperationDecl → List Text → List Text → List Problem
unfolding has_key
placeholder_problems op names [] = []
placeholder_problems op names (p ∷ ps) =
    report (not (has_key names p)) (unfilled_placeholder op.id p)
    ++ placeholder_problems op names ps

-- The problems of each member, in order.
abbrev pub problems_of {ℓ} : {A : Type ℓ} → (A → List Problem) → List A → List Problem
problems_of f [] = []
problems_of f (a ∷ rest) = f a ++ problems_of f rest

abbrev pub attributes_of : IrFields → List IrAttributes
attributes_of fs = map ir_attributes (field_list fs)

unfoldable pub direct_problems : OperationDecl → List Problem
unfolding input_problems placeholder_problems output_problems path_params
direct_problems op =
    let inputs = attributes_of op.inputs in
    problems_of (input_problems op) inputs
    ++ (placeholder_problems op (map wire_name inputs) (path_params (http_path op))
        ++ problems_of (output_problems op) (attributes_of op.outputs))

unfoldable pub unknown_vars : ℕ → List Text → List Text → List Problem
unfolding has_key
unknown_vars i fields [] = []
unknown_vars i fields (v ∷ vs) =
    report (not (has_key fields v)) (unknown_inject_field i v) ++ unknown_vars i fields vs

-- What a rule of `Inject` refers to.
unfoldable pub rule_vars : ℕ → List Text → InjectDecl → List Problem
unfolding unknown_vars inject_vars
rule_vars i fields it =
    unknown_vars i fields (inject_vars it.key)
    ++ (unknown_vars i fields (inject_vars it.value)
        ++ (unknown_vars i fields (inject_vars it.user)
            ++ (unknown_vars i fields (inject_vars it.pass)
                ++ report (is_empty (inject_vars (it.value ++ (it.user ++ it.pass))))
                    (literal_secret i))))

-- The `switch` on a rule at a known place.
unfoldable pub rule_problems : ℕ → InjectDecl → List Problem
rule_problems i it =
    let basic = same it.place (codes "basic") in
    if basic && (is_empty it.user && is_empty it.pass)
    then basic_without_user i ∷ []
    else report (not basic && (is_empty (trim_space it.key) || is_empty it.value))
        (inject_without_key i it.place)

-- One rule of `Inject`, with the names of the credential's fields.
unfoldable pub inject_rule : ℕ → List Text → InjectDecl → List Problem
unfolding has_key rule_problems rule_vars
inject_rule i fields it =
    if not (has_key inject_places it.place)
    then unknown_inject_place i it.place ∷ []
    else rule_problems i it ++ rule_vars i fields it

unfoldable pub inject_problems : ℕ → List Text → List InjectDecl → List Problem
unfolding inject_rule
inject_problems i fields [] = []
inject_problems i fields (it ∷ its) = inject_rule i fields it ++ inject_problems (suc i) fields its

unfoldable pub credential_rules : Option CredentialDecl → List Problem
unfolding inject_problems
credential_rules none = []
credential_rules (some c) = inject_problems 0 (map (λ a. a.name) (attributes_of c.fields)) c.inject

unfoldable pub validate_direct_call : List FlatOp → Option CredentialDecl → List Problem
unfolding direct_problems credential_rules
validate_direct_call fos c = problems_of (λ fo. direct_problems fo.decl) fos ++ credential_rules c
