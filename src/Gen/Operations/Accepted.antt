-- ===== src/Gen/Operations/Accepted.antt =====
-- internal/gen/manifest.go: the ids of operations and capabilities, checked by `Validate`.
use sokel_plugin_sdk.Base.{
  Text, codes, Bool, true, false, Option, none, some, List, [], ◌∷◌, ◌++◌, map, All, append-eq-nil,
  is_empty, ◌≡◌, ◌∙◌, refl, arith, if◌then◌else◌,
}
use mathlib.Core.Path.{subst}
use sokel_plugin_sdk.Gen.Declaration.{OperationDecl, CapabilityDecl, parent}
use sokel_plugin_sdk.Gen.Patterns.{is_op_id, is_cap_id}
use sokel_plugin_sdk.Gen.Check.{has_key}
use sokel_plugin_sdk.Gen.Fresh.{IsFresh, IsFresh-step}
use sokel_plugin_sdk.Gen.Problem.{Problem}
use sokel_plugin_sdk.Gen.Operations.{
  CapabilityScan, operation_fault, operation_problems, field_problems, quoted, faults, slot_fault,
  claim_under, claim_slot, slot_step, slots_with, scan_slots, capability_fault, capability_step,
  scan_capabilities,
}

abbrev pub op_ids : List OperationDecl → List Text
op_ids ops = map (λ op. op.id) ops

abbrev pub cap_names : List CapabilityDecl → List Text
cap_names cs = map (λ c. c.capability) cs

faults-none : (o : Option Problem) → faults o ≡ [] → o ≡ none
faults-none none h = refl
faults-none (some p) h = absurd (ground arith)

pub append_some : (ps : List Problem) (p : Problem) → ¬ ((ps ++ p ∷ []) ≡ [])
append_some [] p e = absurd (ground arith)
append_some (q ∷ ps) p e = absurd (ground arith)

operation_fault-none :
    (seen : List Text) (id : Text)
    → operation_fault seen id ≡ none
    → (is_op_id id ≡ true) × (has_key seen id ≡ false)
unfolding operation_fault
operation_fault-none seen id h = ground arith

pub operations_IsFresh :
    (seen : List Text) (ops : List OperationDecl)
    → operation_problems seen ops ≡ []
    → IsFresh is_op_id seen (op_ids ops)
unfolding operation_problems
operations_IsFresh seen [] h = (tt, (tt, tt))
operations_IsFresh seen (op ∷ ops) h =
    let (named, more) = (append-eq-nil (faults (operation_fault seen op.id)) _).0 h in
    let (fields, rest) =
      (append-eq-nil (field_problems (codes "operation " ++ quoted op.id) op) _).0 more in
    (IsFresh-step is_op_id seen op.id (op_ids ops)).0 (
      operation_fault-none seen op.id (faults-none _ named),
      operations_IsFresh (op.id ∷ seen) ops rest,
    )

slot_fault-none :
    (c : CapabilityDecl) (slots : List Text) (id : Text)
    → slot_fault c slots id ≡ none
    → (is_op_id id ≡ true) × (has_key slots id ≡ false)
unfolding slot_fault
slot_fault-none c slots id h = ground arith

-- The second state has the problems of the first, and its capabilities.
abbrev IsAfter : CapabilityScan → CapabilityScan → Type 0
IsAfter s t = (t.problems ≡ [] → s.problems ≡ []) × (t.seen ≡ s.seen)

pub quiet_before : (ps qs : List Problem) → (ps ++ qs) ≡ [] → ps ≡ []
quiet_before ps qs h = ((append-eq-nil ps qs).0 h).0

claim_under-IsAfter :
    (c : CapabilityDecl) (p id : Text) (o : Option Text) (s : CapabilityScan)
    → IsAfter s (claim_under c p id o s)
unfolding claim_under
claim_under-IsAfter c p id none s = ((λ h. h), refl)
claim_under-IsAfter c p id (some prev) s = (quiet_before s.problems _, refl)

if_IsAfter :
    (b : Bool) (s t u : CapabilityScan) → IsAfter s t → IsAfter s u → IsAfter s (if b then t else u)
if_IsAfter true s t u h k = h
if_IsAfter false s t u h k = k

claim_slot-IsAfter :
    (c : CapabilityDecl) (id : Text) (s : CapabilityScan) → IsAfter s (claim_slot c id s)
unfolding claim_slot
claim_slot-IsAfter c id s =
    if_IsAfter (is_empty (parent c)) s s _ ((λ h. h), refl)
      (claim_under-IsAfter c (parent c) id _ s)

slot_step-IsAfter :
    (c : CapabilityDecl) (op : OperationDecl) (o : Option Problem) (s : CapabilityScan)
    → IsAfter s (slot_step c op o s)
unfolding slot_step
slot_step-IsAfter c op (some p) s = (quiet_before s.problems _, refl)
slot_step-IsAfter c op none s =
    let (quiet, seen) = claim_slot-IsAfter c op.id s in ((λ h. quiet (quiet_before _ _ h)), seen)

-- A step without a new problem had no fault.
pub slot_step_quiet :
    (c : CapabilityDecl) (op : OperationDecl) (o : Option Problem) (s : CapabilityScan)
    → (slot_step c op o s).problems ≡ []
    → o ≡ none
unfolding slot_step
slot_step_quiet c op none s h = refl
slot_step_quiet c op (some p) s h = absurd (append_some s.problems p h)

pub scan_slots-IsAfter :
    (c : CapabilityDecl) (slots : List Text) (ops : List OperationDecl) (s : CapabilityScan)
    → IsAfter s (scan_slots c slots ops s)
unfolding scan_slots
scan_slots-IsAfter c slots [] s = ((λ h. h), refl)
scan_slots-IsAfter c slots (op ∷ ops) s =
    let o = slot_fault c slots op.id in
    let (quiet, seen) = slot_step-IsAfter c op o s in
    let (later, kept) = scan_slots-IsAfter c (slots_with op.id o slots) ops (slot_step c op o s) in
    ((λ h. quiet (later h)), kept ∙ seen)

scan_slots-IsFresh :
    (c : CapabilityDecl) (slots : List Text) (ops : List OperationDecl) (s : CapabilityScan)
    → (scan_slots c slots ops s).problems ≡ []
    → IsFresh is_op_id slots (op_ids ops)
unfolding scan_slots
scan_slots-IsFresh c slots [] s h = (tt, (tt, tt))
scan_slots-IsFresh c slots (op ∷ ops) s h =
    let o = slot_fault c slots op.id in
    let later = scan_slots-IsAfter c (slots_with op.id o slots) ops (slot_step c op o s) in
    let fine : o ≡ none = slot_step_quiet c op o s (later.0 h) in
    (IsFresh-step is_op_id slots op.id (op_ids ops)).0 (
      slot_fault-none c slots op.id fine,
      scan_slots-IsFresh c (op.id ∷ slots) ops (slot_step c op o s) (
          subst
            (λ x. (scan_slots c (slots_with op.id x slots) ops (slot_step c op o s)).problems ≡ [])
            fine h),
    )

capability_fault-none :
    (seen : List Text) (name : Text)
    → capability_fault seen name ≡ none
    → (is_cap_id name ≡ true) × (has_key seen name ≡ false)
unfolding capability_fault
capability_fault-none seen name h = ground arith

abbrev pub HasSlots : CapabilityDecl → Type 0
HasSlots c = IsFresh is_op_id [] (op_ids c.operations)

abbrev names_with : Text → Option Problem → List Text → List Text
names_with name none seen = name ∷ seen
names_with name (some p) seen = seen

capability_step_sound :
    (c : CapabilityDecl) (o : Option Problem) (s : CapabilityScan)
    → (capability_step c o s).problems ≡ []
    → (s.problems ≡ []) × ((o ≡ none) × HasSlots c)
unfolding capability_step
capability_step_sound c (some p) s h = absurd (append_some s.problems p h)
capability_step_sound c none s h =
    let (quiet, seen) = scan_slots-IsAfter c [] c.operations _ in
    (quiet_before s.problems _ (quiet h), (refl, scan_slots-IsFresh c [] c.operations _ h))

capability_step_seen :
    (c : CapabilityDecl) (o : Option Problem) (s : CapabilityScan)
    → (capability_step c o s).seen ≡ names_with c.capability o s.seen
unfolding capability_step
capability_step_seen c (some p) s = refl
capability_step_seen c none s = (scan_slots-IsAfter c [] c.operations _).1

pub capabilities_sound :
    (cs : List CapabilityDecl) (s : CapabilityScan)
    → (scan_capabilities cs s).problems ≡ []
    → (s.problems ≡ []) × (IsFresh is_cap_id s.seen (cap_names cs) × All HasSlots cs)
unfolding scan_capabilities
capabilities_sound [] s h = (h, ((tt, (tt, tt)), tt))
capabilities_sound (c ∷ cs) s h =
    let o = capability_fault s.seen c.capability in
    let (quiet, (fresh, slots)) = capabilities_sound cs (capability_step c o s) h in
    let (before, (fine, has)) = capability_step_sound c o s quiet in
    let seen : (capability_step c o s).seen ≡ c.capability ∷ s.seen =
      subst (λ x. (capability_step c o s).seen ≡ names_with c.capability x s.seen) fine
        (capability_step_seen c o s) in
    (
      before,
      (
        (IsFresh-step is_cap_id s.seen c.capability (cap_names cs)).0 (
          capability_fault-none s.seen c.capability fine,
          subst (λ x. IsFresh is_cap_id x (cap_names cs)) seen fresh,
        ),
        (has, slots),
      ),
    )
