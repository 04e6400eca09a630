-- ===== src/Gen/EventDecls.antt =====
-- internal/gen/manifest.go: the checks of the events and of their common fields.
pub mod Twin
use sokel_plugin_sdk.Base.{
  Text, codes, same, Bool, true, false, not, ◌||◌, Option, none, some, List, [], ◌∷◌, ◌++◌, map,
  is_empty, if◌then◌else◌,
}
use sokel_plugin_sdk.Gen.Field.{IrField, IrFields, no_ir_fields, and_ir_field, ir_attributes}
use sokel_plugin_sdk.Gen.Declaration.{EventDecl}
use sokel_plugin_sdk.Gen.Patterns.{is_op_id}
use sokel_plugin_sdk.Gen.Check.{has_key, validate_fields}
use sokel_plugin_sdk.Gen.Operations.{quoted}
use sokel_plugin_sdk.Gen.Problem.{
  Problem, event_without_id, invalid_event, duplicate_event, common_without_events, common_reserved,
  common_event_id, common_missing, common_type_differs,
}

unfoldable id_problems : List Text → Text → List Problem
unfolding has_key
id_problems seen id =
    if is_empty id
    then event_without_id ∷ []
    else if not (is_op_id id)
    then invalid_event id ∷ []
    else if has_key seen id
    then duplicate_event id ∷ []
    else []

unfoldable pub event_problems : List Text → List EventDecl → List Problem
unfolding id_problems
event_problems seen [] = []
event_problems seen (e ∷ es) =
    id_problems seen e.id
    ++ (validate_fields (codes "event " ++ (quoted e.id ++ codes " fields")) e.fields
        ++ event_problems (e.id ∷ seen) es)

-- `findField`
unfoldable pub find_ir_field : IrFields → Text → Option IrField
find_ir_field no_ir_fields name = none
find_ir_field (and_ir_field f fs) name =
    if same (ir_attributes f).name name then some f else find_ir_field fs name

-- The keys of `reserved`
abbrev pub reserved_keys : List Text
reserved_keys = codes "_event" ∷ codes "event" ∷ codes "input" ∷ codes "credential_id" ∷ []

-- The loop over the events, with the field of the first event that has one.
unfoldable pub common_scan : Text → Option IrField → List EventDecl → List Problem
unfolding find_ir_field
common_scan name ref [] = []
common_scan name ref (e ∷ es) = elim (find_ir_field e.fields name) [
  | none ↦ common_missing name e.id ∷ []
  | some hit ↦ elim ref [
    | none ↦ common_scan name (some hit) es
    | some r ↦
        let rest = common_scan name (some r) es in
        let was = (ir_attributes r).type_name in
        let now = (ir_attributes hit).type_name in
        if same was now then rest else common_type_differs name was now ∷ []
  ]
]

-- One name of `EventsCommon`.
unfoldable pub common_name : List EventDecl → Text → List Problem
unfolding has_key common_scan
common_name events name =
    if has_key reserved_keys name
    then common_reserved name ∷ []
    else if has_key (map (λ e. e.id) events) name
    then common_event_id name ∷ []
    else common_scan name none events

unfoldable pub common_names : List EventDecl → List Text → List Problem
unfolding common_name
common_names events [] = []
common_names events (name ∷ names) = common_name events name ++ common_names events names

-- `validateCommon`, whose `eventIDs` are the ids of the events.
unfoldable pub validate_common : List EventDecl → List Text → List Problem
unfolding common_names
validate_common events names =
    if is_empty names
    then []
    else if is_empty events
    then common_without_events ∷ []
    else common_names events names
