-- ===== src/Sokel/Frames/Merge.antt =====
-- The merge of variables by `bufferSink` of sokel/transport_nats.go.
use sokel_plugin_sdk.Base.{
  Text, same_iff, Option, none, some, List, [], ◌∷◌, Map, lookup, put, lookup-put, IsMap, All, ◌≡◌,
  refl, arith, ◌∙◌,
}
use sokel_plugin_sdk.Contract.Field.{Value}
use sokel_plugin_sdk.Sokel.Frames.{
  Frame, vars_frame, BufferSink, made, put_all, buffer_emit, buffer_all, empty_sink,
}

abbrev or_else : Option Value → Option Value → Option Value
or_else (some v) rest = some v
or_else none rest = rest

-- The value that a frame gives a variable; only a variables frame gives one.
abbrev given_by : Text → Frame → Option Value
given_by k (vars_frame m) = lookup k m
given_by k _ = none

-- The value of the last frame that gives one.
abbrev pub last_value : Text → List Frame → Option Value
last_value k [] = none
last_value k (f ∷ fs) = or_else (last_value k fs) (given_by k f)

-- The variables of a frame come from a Go map.
abbrev pub IsFrame : Frame → Type 0
IsFrame (vars_frame m) = IsMap m
IsFrame _ = Unit {0}

lookup-put_all :
    (k : Text) (base m : Map Value)
    → IsMap m
    → lookup k (put_all base m) ≡ or_else (lookup k m) (lookup k base)
unfolding put_all lookup
lookup-put_all k base [] h = refl
lookup-put_all k base ((j, v) ∷ m) (fresh, h) =
    ground (arith, same_iff j k, lookup-put j k v base, lookup-put_all k (put j v base) m h)

lookup-buffer_emit :
    (k : Text) (s : BufferSink) (f : Frame)
    → IsFrame f
    → lookup k (made (buffer_emit s f).merged) ≡ or_else (given_by k f) (lookup k (made s.merged))
unfolding buffer_emit
lookup-buffer_emit k s (vars_frame m) h = lookup-put_all k (made s.merged) m h
lookup-buffer_emit k s _ h = refl

or_else_assoc : (a b c : Option Value) → or_else a (or_else b c) ≡ or_else (or_else a b) c
or_else_assoc (some v) b c = refl
or_else_assoc none b c = refl

lookup-buffer_from :
    (k : Text) (s : BufferSink) (fs : List Frame)
    → All IsFrame fs
    → lookup k (made (buffer_all s fs).merged)
      ≡ or_else (last_value k fs) (lookup k (made s.merged))
unfolding buffer_all
lookup-buffer_from k s [] h = refl
lookup-buffer_from k s (f ∷ fs) (p, h) =
    rw (lookup-buffer_from k (buffer_emit s f) fs h, lookup-buffer_emit k s f p)
      (or_else_assoc (last_value k fs) (given_by k f) (lookup k (made s.merged)))

or_else-none : (a : Option Value) → or_else a none ≡ a
or_else-none none = refl
or_else-none (some v) = refl

-- After any frames the sink holds, under each name, the value of the last variables frame that
-- names it; text and JSON frames leave no trace.
pub lookup-buffer_all :
    (k : Text) (fs : List Frame)
    → All IsFrame fs
    → lookup k (made (buffer_all empty_sink fs).merged) ≡ last_value k fs
unfolding lookup
lookup-buffer_all k fs h = lookup-buffer_from k empty_sink fs h ∙ or_else-none (last_value k fs)
