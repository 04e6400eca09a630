-- ===== src/Contract/Events/Common.antt =====
-- The check `ValidateCommonFields` of contract/event.go.
use sokel_plugin_sdk.Base.{
  Text, same, same_iff, true, false, Option, some, Option-cases, inl, inr, ◌≢◌, List, [], ◌∷◌, ◌++◌,
  All, ok, ◌>>=◌, ◌≡◌, refl, ◌↔◌, arith, >>=-eq-ok, append-nil, append_assoc, ◌∙◌,
}
use sokel_plugin_sdk.Contract.Field.{Field, ParamType, type_of}
use sokel_plugin_sdk.Contract.Events.{
  Event, event_reserved, is_event_id, find_field, scan, dereference, common_field, collect,
  validate_common_fields,
}

-- The event declares the field, at the type.
abbrev Declares : Text → ParamType → Event → Type 0
Declares k t e = (f : Field) × (find_field e.fields k ≡ some f) × (type_of f ≡ t)

-- A name that the check should let through.
abbrev IsCommon : List Event → Text → Type 0
IsCommon events k =
    (event_reserved k ≡ false)
    × (is_event_id events k ≡ false)
    × ((t : ParamType) × All (Declares k t) events)

scan_total :
    (k : Text) (es : List Event) (ref : Field)
    → All (Declares k (type_of ref)) es
    → scan k es (some ref) ≡ ok (some ref)
unfolding scan
scan_total k [] ref h = refl
scan_total k (e ∷ es) ref ((f, found, t), h) =
    ground (arith, same_iff (type_of f) (type_of ref), scan_total k es ref h)

scan_sound :
    (k : Text) (es : List Event) (ref : Field) (out : Option Field)
    → scan k es (some ref) ≡ ok out
    → All (Declares k (type_of ref)) es × (out ≡ some ref)
unfolding scan
scan_sound k [] ref out h = (tt, cc)
scan_sound k (e ∷ es) ref out h = elim (Option-cases (find_field e.fields k)) [
  | inl missing ↦ absurd (ground arith)
  | inr (f, found) ↦
      let go : same (type_of f) (type_of ref) ≡ true = ground arith in
      let (declared, unchanged) = scan_sound k es ref out (ground arith) in
      (((f, found, (same_iff _ _).0 go), declared), unchanged)
]

-- The loop over the events succeeds exactly if one type serves them all, and is not left at nil.
common_field_total :
    (events : List Event) (k : Text)
    → events ≢ []
    → IsCommon events k
    → (f : Field) × (common_field events k ≡ ok f)
unfolding common_field scan
common_field_total [] k some_event h = absurd (some_event refl)
common_field_total (e ∷ es) k some_event (free, fresh, (t, ((f, found, ft), h))) =
    let agreed : All (Declares k (type_of f)) es = rw ft h in
    (f, ground (arith, scan_total k es f agreed))

dereference_sound :
    (k : Text) (g f : Field) (r : Option Field) → r ≡ some g → dereference k r ≡ ok f → g ≡ f
unfolding dereference
dereference_sound k g f r e h = ground arith

scan_start :
    (k : Text) (es : List Event) (g f : Field)
    → (scan k es (some g) >>= dereference k) ≡ ok f
    → All (Declares k (type_of f)) es × (g ≡ f)
scan_start k es g f h =
    let (r, scanned, taken) = >>=-eq-ok (scan k es (some g)) (dereference k) h in
    let (agreed, same_ref) = scan_sound k es g r scanned in
    let e : g ≡ f = dereference_sound k g f r same_ref taken in (rw e at agreed, e)

common_field_sound :
    (events : List Event) (k : Text) (f : Field)
    → events ≢ []
    → common_field events k ≡ ok f
    → IsCommon events k × All (Declares k (type_of f)) events
unfolding common_field scan
common_field_sound [] k f some_event h = absurd (some_event refl)
common_field_sound (e ∷ es) k f some_event h = elim (Option-cases (find_field e.fields k)) [
  | inl missing ↦ absurd (ground arith)
  | inr (g, found) ↦
      let (there, e_f) = scan_start k es g f (ground arith) in
      let here : Declares k (type_of f) e = (f, ground arith, refl) in
      ((ground arith, ground arith, (type_of f, (here, there))), (here, there))
]

-- The reported fields, in the order of the names.
abbrev Reports : List Event → List Text → List Field → Type 0
Reports events [] [] = Unit
Reports events [] (f ∷ fs) = ⊥
Reports events (k ∷ ks) [] = ⊥
Reports events (k ∷ ks) (f ∷ fs) =
    IsCommon events k × All (Declares k (type_of f)) events × Reports events ks fs

collect_total :
    (events : List Event) (out : List Field) (ks : List Text)
    → events ≢ []
    → All (IsCommon events) ks
    → (fs : List Field) × (collect events out ks ≡ ok fs)
unfolding collect
collect_total events out [] some_event h = (out, refl)
collect_total events out (k ∷ ks) some_event (p, h) =
    let (f, e) = common_field_total events k some_event p in
    let (fs, rest) = collect_total events (out ++ f ∷ []) ks some_event h in (fs, ground arith)

collect_sound :
    (events : List Event) (out : List Field) (ks : List Text) (all_fs : List Field)
    → events ≢ []
    → collect events out ks ≡ ok all_fs
    → (fs : List Field) × (all_fs ≡ out ++ fs) × Reports events ks fs
unfolding collect
collect_sound events out [] all_fs some_event h = ([], ground (arith, append-nil out), tt)
collect_sound events out (k ∷ ks) all_fs some_event h =
    let (f, e, h') = >>=-eq-ok (common_field events k) _ h in
    let (fs, split, rest) = collect_sound events (out ++ f ∷ []) ks all_fs some_event h' in
    let (common, declared) = common_field_sound events k f some_event e in
    (f ∷ fs, split ∙ append_assoc out (f ∷ []) fs, (common, declared, rest))

All-IsCommon :
    (events : List Event) (ks : List Text) (fs : List Field)
    → Reports events ks fs
    → All (IsCommon events) ks
All-IsCommon events [] fs h = tt
All-IsCommon events (k ∷ ks) [] h = absurd h
All-IsCommon events (k ∷ ks) (f ∷ fs) (common, _, h) = (common, All-IsCommon events ks fs h)

-- With at least one event, the check succeeds exactly when every name is no reserved key and no event
-- id, and is declared in every event with one type.
validate_common_fields_iff :
    (events : List Event) (names : List Text)
    → events ≢ []
    → ((fs : List Field) × (validate_common_fields events names ≡ ok fs))
      ↔ All (IsCommon events) names
unfolding validate_common_fields
validate_common_fields_iff events [] some_event = (λ _. tt, λ _. ([], refl))
validate_common_fields_iff [] (k ∷ ks) some_event = absurd (some_event refl)
validate_common_fields_iff (e ∷ es) (k ∷ ks) some_event = (
  λ r.
      let (fs, _, reported) = collect_sound (e ∷ es) [] (k ∷ ks) r.0 some_event r.1 in
      All-IsCommon (e ∷ es) (k ∷ ks) fs reported,
  collect_total (e ∷ es) [] (k ∷ ks) some_event,
)

-- Where the check succeeds, it reports one field for each name in order, of the type that every event
-- declares.
validate_common_fields-Reports :
    (events : List Event) (names : List Text) (fs : List Field)
    → validate_common_fields events names ≡ ok fs
    → Reports events names fs
unfolding validate_common_fields
validate_common_fields-Reports events [] fs h = ground arith
validate_common_fields-Reports [] (k ∷ ks) fs h = absurd (ground arith)
validate_common_fields-Reports (e ∷ es) (k ∷ ks) fs h =
    let (out, split, reported) = collect_sound (e ∷ es) [] (k ∷ ks) fs (λ p. cc) h in
    rw split reported
