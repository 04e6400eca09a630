-- ===== src/Sokel/Declared/Agreement.antt =====
-- `DeclareEventsCommon` of sokel/event.go beside `ValidateCommonFields` of contract/event.go.
use mathlib.Core.Option
use sokel_plugin_sdk.Base.{
  Text, same, same_iff, Option, none, some, Option-cases, Bool-cases, inl, inr, List, [], ◌∷◌, ◌++◌,
  is_empty_of_ne, eq_of_some, ap, Result, ok, err, ◌>>=◌, value, ◌≡◌, ◌≢◌, refl, ◌∙◌, arith,
}
use sokel_plugin_sdk.Contract.Field.{Field, type_of}
use sokel_plugin_sdk.Contract.Events.{
  Event, declared_in, agree, event_reserved, is_event_id, find_field, scan, dereference,
  common_field, collect, validate_common_fields,
}
use sokel_plugin_sdk.Sokel.Plugin.{Plugin}
use sokel_plugin_sdk.Sokel.Declared.{
  is_reserved, spec_of, take_spec, common_spec, gather, declare_events_common,
}

same_sym : (s t : Text) → same s t ≡ same t s
same_sym s t = ground (arith, same_iff s t, same_iff t s)

value-spec_of :
    (k : Text) (es : List Event) (r : Option Field) → value (spec_of k es r) ≡ value (scan k es r)
unfolding spec_of scan declared_in agree
value-spec_of k [] r = refl
value-spec_of k (e ∷ es) r = elim (Option-cases (find_field e.fields k)) [
  | inl missing ↦ rw (missing, value)
  | inr (hit, found) ↦ elim (Option-cases r) [
    | inl first ↦ rw (found, first, value) (value-spec_of k es (some hit))
    | inr (s, later) ↦ elim (Bool-cases (same (type_of s) (type_of hit))) [
      | inl match ↦
          rw (found, later, match, same_sym (type_of hit) (type_of s) ∙ match, value)
            (value-spec_of k es (some s))
      | inr differ ↦ rw (found, later, differ, same_sym (type_of hit) (type_of s) ∙ differ, value)
    ]
  ]
]

-- Two chains have one value if their first calls have, and the rests after the same result.
value->>= :
    {E F A B : Type 0} (m : Result E A) (n : Result F A) (f : A → Result E B) (g : A → Result F B)
    → value m ≡ value n
    → ((a : A) → value (f a) ≡ value (g a))
    → value (m >>= f) ≡ value (n >>= g)
value->>= (ok a) (ok b) f g h rest = rw (eq_of_some h) (rest b)
value->>= (ok a) (err e) f g h rest = absurd (ground arith)
value->>= (err e) (ok b) f g h rest = absurd (ground arith)
value->>= (err e) (err e') f g h rest = refl

value-take_spec : (k : Text) (r : Option Field) → value (take_spec k r) ≡ value (dereference k r)
unfolding take_spec dereference
value-take_spec k none = refl
value-take_spec k (some f) = refl

value-common_spec :
    (events : List Event) (k : Text) → value (common_spec events k) ≡ value (common_field events k)
unfolding common_spec common_field is_reserved event_reserved
value-common_spec events k = elim (Bool-cases (event_reserved k)) [
  | inl reserved ↦ rw reserved
  | inr free ↦ elim (Bool-cases (is_event_id events k)) [
    | inl taken ↦ rw (free, taken)
    | inr fresh ↦
        rw (free, fresh)
          (value->>= (spec_of k events none) (scan k events none) (take_spec k) (dereference k)
            (value-spec_of k events none) (value-take_spec k))
  ]
]

value-gather :
    (events : List Event) (out : List Field) (ks : List Text)
    → value (gather events out ks) ≡ value (collect events out ks)
unfolding gather collect
value-gather events out [] = refl
value-gather events out (k ∷ ks) =
    value->>= (common_spec events k) (common_field events k) _ _ (value-common_spec events k)
      (λ f. value-gather events (out ++ f ∷ []) ks)

value-map :
    {E A B : Type 0} (m : Result E A) (f : A → B)
    → value (m >>= λ a. ok (f a)) ≡ Option.map f (value m)
value-map (ok a) f = refl
value-map (err e) f = refl

validated :
    (events : List Event) (names : List Text)
    → events ≢ []
    → value (validate_common_fields events names) ≡ value (collect events [] names)
unfolding validate_common_fields
validated [] names some_event = absurd (some_event refl)
validated (e ∷ es) [] some_event = refl
validated (e ∷ es) (k ∷ ks) some_event = refl

-- In a plugin with events, `DeclareEventsCommon` succeeds on the names that `ValidateCommonFields`
-- accepts, and no others, and then records the fields that the latter reports.
pub declare_events_common-validate :
    (p : Plugin) (names : List Text)
    → p.events ≢ []
    → value (declare_events_common p names)
      ≡ Option.map
          (λ fs. record p { events_common = fs })
          (value (validate_common_fields p.events names))
unfolding declare_events_common
declare_events_common-validate p names some_event =
    rw (is_empty_of_ne p.events some_event, validated p.events names some_event)
      (value-map (gather p.events [] names) (λ fs. record p { events_common = fs })
        ∙ ap (Option.map (λ fs. record p { events_common = fs })) (value-gather p.events [] names))
