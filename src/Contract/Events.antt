-- ===== src/Contract/Events.antt =====
-- contract/event.go: event contracts and the check of the fields that every event shares.
pub mod Common
use sokel_plugin_sdk.Base.{
  Text, codes, same, Bool, true, false, ◌||◌, Option, none, some, List, [], ◌∷◌, ◌++◌, is_empty,
  Result, ok, err, ◌>>=◌, if◌then◌else◌,
}
use sokel_plugin_sdk.Contract.Field.{Field, ParamType, name_of, type_of}

pub record Event : Type 0 where
  pub id : Text
  pub label : Text
  pub desc : Text
  pub fields : List Field

pub data CommonError : Type 0 where
  no_events : CommonError
  reserved_key : Text → CommonError
  event_id : Text → CommonError
  not_declared : Text → Text → CommonError
  type_differs : Text → ParamType → Text → ParamType → CommonError
  -- The panic of `*ref` at a nil `ref`.
  nil_dereference : Text → CommonError

-- `eventReserved`
unfoldable pub event_reserved : Text → Bool
event_reserved k =
    same k (codes "_event")
    || same k (codes "event")
    || same k (codes "input")
    || same k (codes "credential_id")

-- `ids[name]`
unfoldable pub is_event_id : List Event → Text → Bool
is_event_id [] k = false
is_event_id (e ∷ es) k = same e.id k || is_event_id es k

unfoldable pub find_field : List Field → Text → Option Field
find_field [] k = none
find_field (f ∷ fs) k = if same (name_of f) k then some f else find_field fs k

-- The body of the loop over the events, for one event.
unfoldable pub declared_in : Text → Event → Result CommonError Field
declared_in k e = elim (find_field e.fields k) [ none ↦ err (not_declared k e.id) | some f ↦ ok f ]

unfoldable pub agree : Text → Text → Field → Option Field → Result CommonError Field
agree k id f none = ok f
agree k id f (some ref) =
    if same (type_of f) (type_of ref)
    then ok ref
    else err (type_differs k (type_of f) id (type_of ref))

unfoldable pub scan : Text → List Event → Option Field → Result CommonError (Option Field)
unfolding declared_in agree
scan k [] ref = ok ref
scan k (e ∷ es) ref = do f ← declared_in k e; r ← agree k e.id f ref; scan k es (some r)

unfoldable pub dereference : Text → Option Field → Result CommonError Field
dereference k none = err (nil_dereference k)
dereference k (some f) = ok f

-- The body of the loop over the names.
unfoldable pub common_field : List Event → Text → Result CommonError Field
unfolding dereference
common_field events k =
    if event_reserved k
    then err (reserved_key k)
    else if is_event_id events k
    then err (event_id k)
    else do ref ← scan k events none; dereference k ref

unfoldable pub collect : List Event → List Field → List Text → Result CommonError (List Field)
collect events out [] = ok out
collect events out (k ∷ ks) = do f ← common_field events k; collect events (out ++ f ∷ []) ks

unfoldable pub validate_common_fields : List Event → List Text → Result CommonError (List Field)
unfolding collect common_field scan
validate_common_fields events names =
    if is_empty names
    then ok []
    else if is_empty events
    then err no_events
    else collect events [] names
