-- ===== src/Gen/EventDecls/Twin.antt =====
-- `validateCommon` of internal/gen/manifest.go against `ValidateCommonFields` of contract/event.go.
use sokel_plugin_sdk.Base.{
  Text, codes, same, same_iff, Bool, true, false, ◌&&◌, Option, none, some, Option-cases, List, [],
  ◌∷◌, ◌++◌, map, is_empty, Result, ok, err, ◌>>=◌, Result-cases, ◌≡◌, refl, sym, ap, ◌∙◌, arith,
  Bool-cases, inl, inr,
}
use sokel_plugin_sdk.Contract.Field.{Field, type_of}
use sokel_plugin_sdk.Contract.Events.{
  Event, CommonError, event_reserved, is_event_id, find_field, scan, dereference, common_field,
  collect, validate_common_fields,
}
use sokel_plugin_sdk.Gen.Field.{IrField, ir_attributes}
use sokel_plugin_sdk.Gen.Declaration.{EventDecl}
use sokel_plugin_sdk.Gen.Check.{has_key}
use sokel_plugin_sdk.Gen.Problem.{Problem}
use sokel_plugin_sdk.Gen.EventDecls.{
  reserved_keys, find_ir_field, common_scan, common_name, common_names, validate_common,
}

abbrev pub found_type : Option Field → Option Text
found_type none = none
found_type (some f) = some (type_of f)

abbrev pub found_ir_type : Option IrField → Option Text
found_ir_type none = none
found_ir_type (some f) = some (ir_attributes f).type_name

-- One event, declared in Go and in a manifest: the same id, and fields of the same types under the
-- same names.
abbrev IsTwin : Event → EventDecl → Type 0
IsTwin e d =
    (d.id ≡ e.id)
    × ((k : Text) → found_ir_type (find_ir_field d.fields k) ≡ found_type (find_field e.fields k))

abbrev pub AreTwins : List Event → List EventDecl → Type 0
AreTwins [] [] = Unit
AreTwins [] (d ∷ ds) = ⊥
AreTwins (e ∷ es) [] = ⊥
AreTwins (e ∷ es) (d ∷ ds) = IsTwin e d × AreTwins es ds

abbrev pub succeeds : {A : Type 0} → Result CommonError A → Bool
succeeds (ok a) = true
succeeds (err e) = false

scan_twin_from :
    (k : Text) (es : List Event) (ds : List EventDecl) (f : Field) (g : IrField)
    → AreTwins es ds
    → (ir_attributes g).type_name ≡ type_of f
    → succeeds (scan k es (some f)) ≡ is_empty (common_scan k (some g) ds)
unfolding scan common_scan
scan_twin_from k [] [] f g t e = refl
scan_twin_from k [] (d ∷ ds) f g t e = absurd t
scan_twin_from k (x ∷ es) [] f g t e = absurd t
scan_twin_from k (x ∷ es) (d ∷ ds) f g ((i, types), t) e =
    let at_k = types k in
    elim (Option-cases (find_field x.fields k)) [
      | inl n ↦ elim (Option-cases (find_ir_field d.fields k)) [
        | inl m ↦ ground arith
        | inr (h, m) ↦ absurd (ground arith)
      ]
      | inr (h, n) ↦ elim (Option-cases (find_ir_field d.fields k)) [
        | inl m ↦ absurd (ground arith)
        | inr (j, m) ↦ ground (
          arith,
          scan_twin_from k es ds f g t e,
          same_iff (type_of h) (type_of f),
          same_iff (ir_attributes g).type_name (ir_attributes j).type_name,
        )
      ]
    ]

scan_keeps :
    (k : Text) (es : List Event) (f : Field) (r : Option Field)
    → scan k es (some f) ≡ ok r
    → r ≡ some f
unfolding scan
scan_keeps k [] f r h = cc
scan_keeps k (x ∷ es) f r h = elim (Option-cases (find_field x.fields k)) [
  | inl n ↦ absurd (ground arith)
  | inr (g, n) ↦ elim (Bool-cases (same (type_of g) (type_of f))) [
    | inl e ↦ scan_keeps k es f r (ground arith)
    | inr e ↦ absurd (ground arith)
  ]
]

-- The first event has the field whose type the others are compared with.
scan_twin :
    (k : Text) (x : Event) (es : List Event) (d : EventDecl) (ds : List EventDecl)
    → AreTwins (x ∷ es) (d ∷ ds)
    → succeeds (do ref ← scan k (x ∷ es) none; dereference k ref)
      ≡ is_empty (common_scan k none (d ∷ ds))
unfolding scan common_scan dereference
scan_twin k x es d ds ((i, types), t) =
    let at_k = types k in
    elim (Option-cases (find_field x.fields k)) [
      | inl n ↦ elim (Option-cases (find_ir_field d.fields k)) [
        | inl m ↦ ground arith
        | inr (h, m) ↦ absurd (ground arith)
      ]
      | inr (h, n) ↦ elim (Option-cases (find_ir_field d.fields k)) [
        | inl m ↦ absurd (ground arith)
        | inr (j, m) ↦
            let e : (ir_attributes j).type_name ≡ type_of h = ground arith in
            let rest = scan_twin_from k es ds h j t e in
            elim (Result-cases (scan k es (some h))) [
              | inl (r, q) ↦ let kept = scan_keeps k es h r q in ground arith
              | inr (bad, q) ↦ ground arith
            ]
      ]
    ]

ids_twin :
    (k : Text) (es : List Event) (ds : List EventDecl)
    → AreTwins es ds
    → has_key (map (λ d. d.id) ds) k ≡ is_event_id es k
unfolding has_key is_event_id
ids_twin k [] [] t = refl
ids_twin k [] (d ∷ ds) t = absurd t
ids_twin k (e ∷ es) [] t = absurd t
ids_twin k (e ∷ es) (d ∷ ds) ((i, types), t) = cc (i, ids_twin k es ds t)

reserved_twin : (k : Text) → has_key reserved_keys k ≡ event_reserved k
unfolding has_key event_reserved
reserved_twin k = ground (
  arith,
  same_iff k (codes "_event"),
  same_iff (codes "_event") k,
  same_iff k (codes "event"),
  same_iff (codes "event") k,
  same_iff k (codes "input"),
  same_iff (codes "input") k,
  same_iff k (codes "credential_id"),
  same_iff (codes "credential_id") k,
)

name_twin :
    (k : Text) (x : Event) (es : List Event) (d : EventDecl) (ds : List EventDecl)
    → AreTwins (x ∷ es) (d ∷ ds)
    → succeeds (common_field (x ∷ es) k) ≡ is_empty (common_name (d ∷ ds) k)
unfolding common_field common_name
name_twin k x es d ds t =
    ground (arith, reserved_twin k, ids_twin k (x ∷ es) (d ∷ ds) t, scan_twin k x es d ds t)

is_empty-append : (ps qs : List Problem) → is_empty (ps ++ qs) ≡ (is_empty ps && is_empty qs)
is_empty-append [] qs = refl
is_empty-append (p ∷ ps) qs = refl

names_twin :
    (ks : List Text) (out : List Field) (x : Event) (es : List Event) (d : EventDecl)
    (ds : List EventDecl)
    → AreTwins (x ∷ es) (d ∷ ds)
    → succeeds (collect (x ∷ es) out ks) ≡ is_empty (common_names (d ∷ ds) ks)
unfolding collect common_names
names_twin [] out x es d ds t = refl
names_twin (k ∷ ks) out x es d ds t =
    let here = name_twin k x es d ds t in
    let split = is_empty-append (common_name (d ∷ ds) k) (common_names (d ∷ ds) ks) in
    elim (Result-cases (common_field (x ∷ es) k)) [
      | inl (f, e) ↦
          let rest = names_twin ks (out ++ f ∷ []) x es d ds t in
          let fine : is_empty (common_name (d ∷ ds) k) ≡ true = sym here ∙ ap succeeds e in
          ap (λ r. succeeds (r >>= λ g. collect (x ∷ es) (out ++ g ∷ []) ks)) e
          ∙ rest
          ∙ sym (split ∙ ap (λ b. b && is_empty (common_names (d ∷ ds) ks)) fine)
      | inr (bad, e) ↦
          let wrong : is_empty (common_name (d ∷ ds) k) ≡ false = sym here ∙ ap succeeds e in
          ap (λ r. succeeds (r >>= λ g. collect (x ∷ es) (out ++ g ∷ []) ks)) e
          ∙ sym (split ∙ ap (λ b. b && is_empty (common_names (d ∷ ds) ks)) wrong)
    ]

-- Two declarations of the same events, one in Go and one in a manifest, are treated alike: the
-- manifest's check of the common fields reports nothing exactly if the check of the contract
-- succeeds.
pub validate_common-twin :
    (es : List Event) (ds : List EventDecl) (names : List Text)
    → AreTwins es ds
    → succeeds (validate_common_fields es names) ≡ is_empty (validate_common ds names)
unfolding validate_common_fields validate_common
validate_common-twin es ds [] t = refl
validate_common-twin [] [] (k ∷ ks) t = refl
validate_common-twin [] (d ∷ ds) (k ∷ ks) t = absurd t
validate_common-twin (e ∷ es) [] (k ∷ ks) t = absurd t
validate_common-twin (e ∷ es) (d ∷ ds) (k ∷ ks) t = names_twin (k ∷ ks) [] e es d ds t
