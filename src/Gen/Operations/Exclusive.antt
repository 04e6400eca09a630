-- ===== src/Gen/Operations/Exclusive.antt =====
-- internal/gen/manifest.go: `slotOwner`, the slots that sub-capabilities take from each other.
use mathlib.Core.Path.{subst}
use sokel_plugin_sdk.Base.{
  Text, same, same_iff, Bool, true, false, Option, none, some, List, [], ◌∷◌, ◌++◌, map, All, In,
  All-map, All-append, All-In, In-append, IsDistinct, IsDistinct-append, lookup, put, lookup-put,
  is_empty, if◌then◌else◌, ◌≡◌, refl, ap, sym, arith, Bool-cases, inl, inr,
}
use sokel_plugin_sdk.Gen.Declaration.{OperationDecl, CapabilityDecl, parent}
use sokel_plugin_sdk.Gen.Problem.{Problem}
use sokel_plugin_sdk.Gen.Operations.{
  CapabilityScan, slot_fault, slot_key, claim_under, claim_slot, slot_step, slots_with, scan_slots,
  capability_fault, capability_step, scan_capabilities,
}
use sokel_plugin_sdk.Gen.Operations.Accepted.{
  append_some, quiet_before, slot_step_quiet, scan_slots-IsAfter, capabilities_sound,
}

-- A parent and a slot
abbrev Claim : Type 0
Claim = Text × Text

-- The slots that a capability takes under its parent, if it has one.
abbrev claims_of : CapabilityDecl → List OperationDecl → List Claim
claims_of c ops =
    let taken = map (λ op. (parent c, op.id)) ops in if is_empty (parent c) then [] else taken

abbrev pub claims : List CapabilityDecl → List Claim
claims [] = []
claims (c ∷ cs) = claims_of c c.operations ++ claims cs

-- Nobody has taken the slot.
abbrev IsFree : CapabilityScan → Claim → Type 0
IsFree s x = lookup (slot_key x.0 x.1) s.owners ≡ none

-- From one state to a later one, the claims were taken, each for the first time.
abbrev Takes : CapabilityScan → CapabilityScan → List Claim → Type 0
Takes s t xs =
    IsDistinct xs × (All (IsFree s) xs × ((x : Claim) → IsFree t x → IsFree s x × (¬ (In x xs))))

-- One step after another.
Takes-both :
    (s t u : CapabilityScan) (xs ys : List Claim)
    → Takes s t xs
    → Takes t u ys
    → Takes s u (xs ++ ys)
Takes-both s t u xs ys (dx, (fx, bx)) (dy, (fy, by)) = (
  IsDistinct-append xs ys dx dy (λ x l r. (bx x (All-In (IsFree t) x ys fy r)).1 l),
  (
    All-append (IsFree s) xs ys fx (All-map (IsFree t) (IsFree s) ys (λ x f. (bx x f).0) fy),
    λ x free.
        let (later, out) = by x free in
        let (first, apart) = bx x later in
        (first, λ m. elim (In-append x xs ys m) [ inl l ↦ apart l | inr r ↦ out r ]),
  ),
)

Takes-none : (s t : CapabilityScan) → t.owners ≡ s.owners → Takes s t []
Takes-none s t e =
    (tt, (tt, λ x free. (subst (λ o. lookup (slot_key x.0 x.1) o ≡ none) e free, λ m. m)))

-- A slot is free after a claim if it was before, and is another one.
IsFree-before :
    (p id : Text) (v : Text) (s : CapabilityScan) (x : Claim)
    → lookup (slot_key x.0 x.1) (put (slot_key p id) v s.owners) ≡ none
    → IsFree s x × (¬ (In x ((p, id) ∷ [])))
IsFree-before p id v s x free =
    let put_eq = lookup-put (slot_key p id) (slot_key x.0 x.1) v s.owners in
    elim (Bool-cases (same (slot_key p id) (slot_key x.0 x.1))) [
      | inl e ↦ absurd (ground arith)
      | inr e ↦ (
        ground arith,
        λ m. elim m [
          | inl k ↦
              let alike : same (slot_key p id) (slot_key x.0 x.1) ≡ true =
                (same_iff _ _).1 (ap (λ y. slot_key y.0 y.1) (sym k)) in
              absurd (ground arith)
          | inr none_left ↦ none_left
        ],
      )
    ]

if_Takes :
    (b : Bool) (s t : CapabilityScan) (xs : List Claim)
    → (if b then s else t).problems ≡ []
    → (t.problems ≡ [] → Takes s t xs)
    → Takes s (if b then s else t) (if b then [] else xs)
if_Takes true s t xs h k = Takes-none s s refl
if_Takes false s t xs h k = k h

claim_under-Takes :
    (c : CapabilityDecl) (p id : Text) (o : Option Text) (s : CapabilityScan)
    → lookup (slot_key p id) s.owners ≡ o
    → (claim_under c p id o s).problems ≡ []
    → Takes s (claim_under c p id o s) ((p, id) ∷ [])
unfolding claim_under
claim_under-Takes c p id (some prev) s e h = absurd (append_some s.problems _ h)
claim_under-Takes c p id none s e h =
    (((λ m. m), tt), ((e, tt), λ x free. IsFree-before p id c.capability s x free))

-- The claims of one operation.
abbrev claim_of : CapabilityDecl → Text → List Claim
claim_of c id = if is_empty (parent c) then [] else (parent c, id) ∷ []

claim_slot-Takes :
    (c : CapabilityDecl) (id : Text) (s : CapabilityScan)
    → (claim_slot c id s).problems ≡ []
    → Takes s (claim_slot c id s) (claim_of c id)
unfolding claim_slot
claim_slot-Takes c id s h =
    if_Takes (is_empty (parent c)) s _ _ h
      (λ e. claim_under-Takes c (parent c) id (lookup (slot_key (parent c) id) s.owners) s refl e)

slot_step-Takes :
    (c : CapabilityDecl) (op : OperationDecl) (o : Option Problem) (s : CapabilityScan)
    → o ≡ none
    → (slot_step c op o s).problems ≡ []
    → Takes s (slot_step c op o s) (claim_of c op.id)
unfolding slot_step
slot_step-Takes c op (some p) s e h = absurd (ground arith)
slot_step-Takes c op none s e h = claim_slot-Takes c op.id s (quiet_before _ _ h)

claims_of_cons :
    (c : CapabilityDecl) (op : OperationDecl) (ops : List OperationDecl)
    → claims_of c (op ∷ ops) ≡ claim_of c op.id ++ claims_of c ops
claims_of_cons c op ops = ground arith

claims_of_nil : (c : CapabilityDecl) → claims_of c [] ≡ []
claims_of_nil c = ground arith

scan_slots-Takes :
    (c : CapabilityDecl) (slots : List Text) (ops : List OperationDecl) (s : CapabilityScan)
    → (scan_slots c slots ops s).problems ≡ []
    → Takes s (scan_slots c slots ops s) (claims_of c ops)
unfolding scan_slots
scan_slots-Takes c slots [] s h = subst (Takes s s) (sym (claims_of_nil c)) (Takes-none s s refl)
scan_slots-Takes c slots (op ∷ ops) s h =
    let o = slot_fault c slots op.id in
    let now = slot_step c op o s in
    let later = scan_slots-IsAfter c (slots_with op.id o slots) ops now in
    let quiet = later.0 h in
    let rest = scan_slots c (slots_with op.id o slots) ops now in
    subst (Takes s rest) (sym (claims_of_cons c op ops)) (
      Takes-both s now rest (claim_of c op.id) (claims_of c ops)
        (slot_step-Takes c op o s (slot_step_quiet c op o s quiet) quiet)
        (scan_slots-Takes c (slots_with op.id o slots) ops now h))

capability_step-Takes :
    (c : CapabilityDecl) (o : Option Problem) (s : CapabilityScan)
    → (capability_step c o s).problems ≡ []
    → Takes s (capability_step c o s) (claims_of c c.operations)
unfolding capability_step
capability_step-Takes c (some p) s h = absurd (append_some s.problems p h)
capability_step-Takes c none s h = scan_slots-Takes c [] c.operations _ h

pub capabilities_take :
    (cs : List CapabilityDecl) (s : CapabilityScan)
    → (scan_capabilities cs s).problems ≡ []
    → Takes s (scan_capabilities cs s) (claims cs)
unfolding scan_capabilities
capabilities_take [] s h = Takes-none s s refl
capabilities_take (c ∷ cs) s h =
    let now = capability_step c (capability_fault s.seen c.capability) s in
    Takes-both s now (scan_capabilities cs now) (claims_of c c.operations) (claims cs)
      (capability_step-Takes c _ s (capabilities_sound cs now h).0) (capabilities_take cs now h)
