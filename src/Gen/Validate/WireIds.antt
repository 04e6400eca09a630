-- ===== src/Gen/Validate/WireIds.antt =====
-- internal/gen/manifest.go: the ids of all operations of a declaration that `Validate` accepts.
use mathlib.Core.Path.{subst}
use sokel_plugin_sdk.Base.{
  Text, Bool, true, false, List, [], ◌∷◌, ◌++◌, map, All, All-map, All-In, In, In-append,
  IsDistinct, IsDistinct-append, all, ◌≡◌, refl, sym, ◌∙◌, arith, Bool-cases, inl, inr,
}
use sokel_plugin_sdk.Sokel.Sources.Signature.{Lacks, split_at}
use sokel_plugin_sdk.Gen.Patterns.{is_op_char, is_op_id, is_cap_rest, is_cap_id}
use sokel_plugin_sdk.Gen.Declaration.{
  Manifest, OperationDecl, CapabilityDecl, FlatOp, flat_business, flat_slot, flat_slots,
  all_operations,
}
use sokel_plugin_sdk.Gen.Operations.{operation_problems, capability_problems}
use sokel_plugin_sdk.Gen.Operations.Accepted.{
  op_ids, cap_names, HasSlots, operations_IsFresh, capabilities_sound,
}
use sokel_plugin_sdk.Gen.Operations.Exclusive.{claims, capabilities_take}
use sokel_plugin_sdk.Gen.Validate.{Disk, validate}
use sokel_plugin_sdk.Gen.Validate.Parts.{validate-IsQuiet}

op_chars_lack : (s : Text) → all is_op_char s ≡ true → Lacks b'.' s
unfolding is_op_char
op_chars_lack [] h = tt
op_chars_lack (c ∷ s) h = ((λ e. absurd (ground arith)), op_chars_lack s (ground arith))

op_id-Lacks : (s : Text) → is_op_id s ≡ true → Lacks b'.' s
unfolding is_op_id
op_id-Lacks [] h = tt
op_id-Lacks (c ∷ s) h = ((λ e. absurd (ground arith)), op_chars_lack s (ground arith))

cap_rest-Lacks : (begun : Bool) (s : Text) → is_cap_rest begun s ≡ true → Lacks b'.' s
unfolding is_cap_rest
cap_rest-Lacks begun [] h = tt
cap_rest-Lacks true (c ∷ s) h = elim (Bool-cases (is_op_char c)) [
  | inl e ↦ ((λ dot. absurd (ground arith)), cap_rest-Lacks true s (ground arith))
  | inr e ↦ ((λ dot. absurd (ground arith)), cap_rest-Lacks false s (ground arith))
]
cap_rest-Lacks false (c ∷ s) h =
    ((λ e. absurd (ground arith)), cap_rest-Lacks true s (ground arith))

has_dot : (n s : Text) → ¬ (Lacks b'.' (n ++ (b'.' ∷ s)))
has_dot [] s (p, h) = p refl
has_dot (c ∷ n) s (p, h) = has_dot n s h

-- The texts are `<name>.<slot>` for one of the names.
abbrev IsWireOf : List Text → Text → Type 0
IsWireOf ns x = (n : Text) × (In n ns × ((slot : Text) × (x ≡ n ++ (b'.' ∷ slot))))

abbrev ids : List FlatOp → List Text
ids fos = map (λ fo. fo.decl.id) fos

ids-append : (xs ys : List FlatOp) → ids (xs ++ ys) ≡ ids xs ++ ids ys
ids-append [] ys = refl
ids-append (x ∷ xs) ys = cc (ids-append xs ys)

business_ids : (ops : List OperationDecl) → ids (map flat_business ops) ≡ op_ids ops
unfolding flat_business
business_ids [] = refl
business_ids (op ∷ ops) = cc (business_ids ops)

slot_ids_of :
    (c : CapabilityDecl) (ops : List OperationDecl) (x : Text)
    → In x (ids (map (flat_slot c) ops))
    → (op : OperationDecl) × (In op.id (op_ids ops) × (x ≡ c.capability ++ (b'.' ∷ op.id)))
unfolding flat_slot
slot_ids_of c [] x m = absurd m
slot_ids_of c (op ∷ ops) x (inl e) = (op, (inl refl, e))
slot_ids_of c (op ∷ ops) x (inr m) = let (o, (i, e)) = slot_ids_of c ops x m in (o, (inr i, e))

slot_ids-IsDistinct :
    (c : CapabilityDecl) (ops : List OperationDecl)
    → Lacks b'.' c.capability
    → IsDistinct (op_ids ops)
    → IsDistinct (ids (map (flat_slot c) ops))
unfolding flat_slot
slot_ids-IsDistinct c [] clean h = tt
slot_ids-IsDistinct c (op ∷ ops) clean (new, h) = (
  (λ m.
      let (o, (i, e)) = slot_ids_of c ops _ m in
      let (p, q) = split_at b'.' c.capability c.capability {s = op.id} {t = o.id} clean clean e in
      new (subst (λ y. In y (op_ids ops)) (sym q) i)),
  slot_ids-IsDistinct c ops clean h,
)

capability_ids_of :
    (cs : List CapabilityDecl) (x : Text) → In x (ids (flat_slots cs)) → IsWireOf (cap_names cs) x
unfolding flat_slots
capability_ids_of [] x m = absurd m
capability_ids_of (c ∷ cs) x m =
    elim (In-append x (ids (map (flat_slot c) c.operations)) (ids (flat_slots cs))
      (subst (In x) (ids-append (map (flat_slot c) c.operations) (flat_slots cs)) m)) [
        | inl l ↦
            let (o, (i, e)) = slot_ids_of c c.operations x l in
            (c.capability, (inl refl, (o.id, e)))
        | inr r ↦ let (n, (i, (slot, e))) = capability_ids_of cs x r in (n, (inr i, (slot, e)))
      ]

capability_ids-IsDistinct :
    (cs : List CapabilityDecl)
    → All (λ n. Lacks b'.' n) (cap_names cs)
    → IsDistinct (cap_names cs)
    → All (λ c. IsDistinct (op_ids c.operations)) cs
    → IsDistinct (ids (flat_slots cs))
unfolding flat_slots
capability_ids-IsDistinct [] clean d slots = tt
capability_ids-IsDistinct (c ∷ cs) (clean, rest) (new, d) (here, slots) =
    subst IsDistinct (sym (ids-append (map (flat_slot c) c.operations) (flat_slots cs))) (
      IsDistinct-append (ids (map (flat_slot c) c.operations)) (ids (flat_slots cs))
        (slot_ids-IsDistinct c c.operations clean here) (capability_ids-IsDistinct cs rest d slots)
        (λ x l r.
          let (o, (i, e)) = slot_ids_of c c.operations x l in
          let (n, (m, (slot, k))) = capability_ids_of cs x r in
          let (p, q) =
            split_at b'.' c.capability n {s = o.id} {t = slot} clean
              (All-In (λ y. Lacks b'.' y) n (cap_names cs) rest m) (sym e ∙ k) in
          new (subst (λ y. In y (cap_names cs)) (sym p) m)))

not_wire : (ns : List Text) (x : Text) → Lacks b'.' x → ¬ (IsWireOf ns x)
not_wire ns x lacks (n, (i, (slot, e))) = has_dot n slot (subst (Lacks b'.') e lacks)

All-lack :
    (valid : Text → Bool)
    → ((s : Text) → valid s ≡ true → Lacks b'.' s)
    → (ns : List Text) → All (λ n. valid n ≡ true) ns
    → All (λ n. Lacks b'.' n) ns
All-lack valid h ns k = All-map (λ n. valid n ≡ true) (λ n. Lacks b'.' n) ns h k

-- The operations and the capabilities of a declaration without problems.
all_ids-IsDistinct :
    (ops : List OperationDecl) (cs : List CapabilityDecl)
    → operation_problems [] ops ≡ []
    → capability_problems cs ≡ []
    → IsDistinct (ids (map flat_business ops ++ flat_slots cs))
unfolding capability_problems is_cap_id is_cap_rest
all_ids-IsDistinct ops cs h k =
    let (valid, (d, u)) = operations_IsFresh [] ops h in
    let (quiet, ((names, (apart, v)), slots)) = capabilities_sound cs _ k in
    let clean = All-lack is_op_id op_id-Lacks (op_ids ops) valid in
    subst IsDistinct (sym (ids-append (map flat_business ops) (flat_slots cs))) (
      IsDistinct-append (ids (map flat_business ops)) (ids (flat_slots cs))
        (subst IsDistinct (sym (business_ids ops)) d)
        (capability_ids-IsDistinct cs
          (All-lack is_cap_id (cap_rest-Lacks false) (cap_names cs) names) apart
          (All-map HasSlots (λ c. IsDistinct (op_ids c.operations)) cs (λ c s. s.1.0) slots))
        (λ x l r.
          not_wire (cap_names cs) x
            (All-In (λ y. Lacks b'.' y) x (op_ids ops) clean (subst (In x) (business_ids ops) l))
            (capability_ids_of cs x r)))

-- In a declaration in which the validation finds no problem, all operations have different ids on
-- the wire, the slots of the capabilities and the plain operations together.
pub validate-IsDistinct :
    (disk : Disk) (m : Manifest)
    → validate disk m ≡ []
    → IsDistinct (map (λ fo. fo.decl.id) (all_operations m))
unfolding all_operations
validate-IsDistinct disk m h =
    let quiet = (validate-IsQuiet disk m).0 h in
    all_ids-IsDistinct m.operations m.implements quiet.operations quiet.capabilities

-- In a declaration in which the validation finds no problem, no slot is taken twice under one
-- parent: sub-capabilities of the same parent fill different slots.
pub validate-claims :
    (disk : Disk) (m : Manifest) → validate disk m ≡ [] → IsDistinct (claims m.implements)
unfolding capability_problems
validate-claims disk m h =
    (capabilities_take m.implements _ ((validate-IsQuiet disk m).0 h).capabilities).0
