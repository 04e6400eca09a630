-- ===== src/Sokel/Frames.antt =====
-- sokel/emitter.go and the sinks of sokel/transport_nats.go: what a handler emits, and what
-- becomes of it.
pub mod Merge
use sokel_plugin_sdk.Base.{
  Text, Option, none, some, List, [], ◌∷◌, ◌++◌, Map, put, map, is_empty, if◌then◌else◌,
}
use sokel_plugin_sdk.Contract.Field.{Value}
use sokel_plugin_sdk.Sokel.Errors.{ErrorCode, GoError, error_reply, ErrorReply}

-- `frame`, by its kind
pub data Frame : Type 0 where
  text_frame : Text → Frame
  json_frame : Value → Frame
  vars_frame : Map Value → Frame
  error_frame_of : ErrorReply → Frame

-- What a handler calls on its emitter; the variables are those of `structToVars`, `none` where it
-- gives nil.
pub data Emission : Type 0 where
  text : Text → Emission
  json : Value → Emission
  vars : Option (Map Value) → Emission

-- `Text`, `JSON` and `Vars` of `Emitter` and of `typedSink`
unfoldable pub emitted : Emission → List Frame
emitted (text t) = text_frame t ∷ []
emitted (json v) = json_frame v ∷ []
emitted (vars none) = []
emitted (vars (some m)) = if is_empty m then [] else vars_frame m ∷ []

unfoldable pub frames_of : List Emission → List Frame
unfolding emitted
frames_of [] = []
frames_of (e ∷ es) = emitted e ++ frames_of es

unfoldable pub error_frame : GoError → Frame
error_frame e = error_frame_of (error_reply e)

-- `bufferSink`; a nil map is `none`
pub record BufferSink : Type 0 where
  pub merged : Option (Map Value)

abbrev pub empty_sink : BufferSink
empty_sink = record { merged = none }

abbrev pub made : Option (Map Value) → Map Value
made none = []
made (some m) = m

-- `for k, v := range f.Vars`; every order of the entries is a list of its own
unfoldable pub put_all : Map Value → Map Value → Map Value
put_all base [] = base
put_all base ((k, v) ∷ m) = put_all (put k v base) m

unfoldable pub buffer_emit : BufferSink → Frame → BufferSink
unfolding put_all
buffer_emit s (vars_frame m) = record { merged = some (put_all (made s.merged) m) }
buffer_emit s _ = s

unfoldable pub buffer_all : BufferSink → List Frame → BufferSink
unfolding buffer_emit
buffer_all s [] = s
buffer_all s (f ∷ fs) = buffer_all (buffer_emit s f) fs
