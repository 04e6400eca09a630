-- ===== src/Sokel/Declared.antt =====
-- sokel/event.go: the declarations of events and of event sources.
pub mod Agreement
use sokel_plugin_sdk.Base.{
  Text, codes, same, Bool, ◌||◌, Option, none, some, List, [], ◌∷◌, ◌++◌, is_empty, Result, ok, err,
  ◌>>=◌, if◌then◌else◌,
}
use sokel_plugin_sdk.Contract.Field.{Field, ParamType, type_of}
use sokel_plugin_sdk.Contract.Events.{Event, is_event_id, find_field}
use sokel_plugin_sdk.Sokel.Plugin.{Plugin, Source, filled}

-- An event as it is declared: the fields of the declaration may be nil.
pub record EventDeclaration : Type 0 where
  pub id : Text
  pub label : Text
  pub desc : Text
  pub fields : Option (List Field)

fields_or_empty : Option (List Field) → List Field
fields_or_empty (some fs) = fs
fields_or_empty none = []

-- `DeclareEvent`; `derived` is what reflection gives for the type of the payload.
unfoldable declare_event : Option (List Field) → Plugin → EventDeclaration → Plugin
unfolding fields_or_empty
declare_event derived p e =
    let declared : Event = record {
      id = e.id;
      label = e.label;
      desc = e.desc;
      fields = fields_or_empty (filled e.fields derived);
    } in
    record p { events = p.events ++ declared ∷ [] }

-- The methods of `plugin.EventHost`.
unfoldable host_declare_event : Plugin → Event → Plugin
host_declare_event p e = record p { events = p.events ++ e ∷ [] }

unfoldable host_declare_events_common : Plugin → List Field → List Text → Plugin
host_declare_events_common p fields names = record p { events_common = fields }

unfoldable register_source : Plugin → Source → Plugin
register_source p source = record p { sources = p.sources ++ source ∷ [] }

pub data DeclareError : Type 0 where
  declared_too_early : DeclareError
  collides_reserved : Text → DeclareError
  collides_event : Text → DeclareError
  does_not_exist : Text → Text → DeclareError
  different_types : Text → ParamType → ParamType → DeclareError
  -- The panic of `*spec` at a nil `spec`.
  nil_spec : Text → DeclareError

-- `reserved[name]`
unfoldable pub is_reserved : Text → Bool
is_reserved name =
    same name (codes "_event")
    || same name (codes "event")
    || same name (codes "input")
    || same name (codes "credential_id")

-- The loop over the events, with `spec` so far.
unfoldable pub spec_of : Text → List Event → Option Field → Result DeclareError (Option Field)
spec_of name [] spec = ok spec
spec_of name (e ∷ es) spec = elim (find_field e.fields name) [
  | none ↦ err (does_not_exist name e.id)
  | some hit ↦ elim spec [
    | none ↦ spec_of name es (some hit)
    | some s ↦
        let rest = spec_of name es (some s) in
        if same (type_of s) (type_of hit)
        then rest
        else err (different_types name (type_of s) (type_of hit))
  ]
]

take_spec : Text → Option Field → Result DeclareError Field
take_spec name none = err (nil_spec name)
take_spec name (some f) = ok f

-- The body of the loop over the names.
common_spec : List Event → Text → Result DeclareError Field
unfolding is_reserved spec_of take_spec
common_spec events name =
    if is_reserved name
    then err (collides_reserved name)
    else if is_event_id events name
    then err (collides_event name)
    else do spec ← spec_of name events none; take_spec name spec

gather : List Event → List Field → List Text → Result DeclareError (List Field)
gather events out [] = ok out
gather events out (name ∷ names) = do
  f ← common_spec events name
  gather events (out ++ f ∷ []) names

unfoldable pub declare_events_common : Plugin → List Text → Result DeclareError Plugin
unfolding gather common_spec
declare_events_common p names =
    if is_empty p.events
    then err declared_too_early
    else do out ← gather p.events [] names; ok (record p { events_common = out })
