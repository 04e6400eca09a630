-- ===== src/Gen/Operations.antt =====
-- internal/gen/manifest.go: the checks of the operations and of the capabilities.
pub mod Accepted
pub mod Exclusive
use sokel_plugin_sdk.Base.{
  ℕ, Text, codes, same, Bool, true, false, not, ◌&&◌, ◌||◌, Option, none, some, List, [], ◌∷◌, ◌++◌,
  is_empty, Map, lookup, put, if◌then◌else◌,
}
use sokel_plugin_sdk.Gen.Declaration.{OperationDecl, CapabilityDecl, parent}
use sokel_plugin_sdk.Gen.Patterns.{is_op_id, is_cap_id}
use sokel_plugin_sdk.Gen.Strings.{has_byte}
use sokel_plugin_sdk.Gen.Report.{report}
use sokel_plugin_sdk.Gen.Check.{has_key, validate_fields}
use sokel_plugin_sdk.Gen.Problem.{
  Problem, operation_without_id, operation_in_reserved_namespace, invalid_operation,
  old_auth_operation, duplicate_operation, capability_without_name, invalid_capability,
  duplicate_capability, capability_without_operations, slot_without_id, invalid_slot,
  duplicate_slot, contested_slot,
}

-- `fmt.Sprintf("%q", s)`, for a text without characters to escape
abbrev pub quoted : Text → Text
quoted s = b'"' ∷ s ++ (b'"' ∷ [])

abbrev old_auth_names : List Text
old_auth_names = codes "auth_start" ∷ codes "auth_submit" ∷ codes "auth_poll" ∷ []

-- The `switch` on the id of an operation, with the ids before it.
unfoldable pub operation_fault : List Text → Text → Option Problem
unfolding has_key has_byte
operation_fault seen id =
    if is_empty id
    then some operation_without_id
    else if has_byte b'.' id
    then some (operation_in_reserved_namespace id)
    else if not (is_op_id id)
    then some (invalid_operation id)
    else if has_key old_auth_names id
    then some (old_auth_operation id)
    else if has_key seen id
    then some (duplicate_operation id)
    else none

abbrev pub faults : Option Problem → List Problem
faults none = []
faults (some p) = p ∷ []

abbrev field_problems : Text → OperationDecl → List Problem
field_problems place op =
    validate_fields (place ++ codes " inputs") op.inputs
    ++ validate_fields (place ++ codes " outputs") op.outputs

unfoldable pub operation_problems : List Text → List OperationDecl → List Problem
unfolding operation_fault
operation_problems seen [] = []
operation_problems seen (op ∷ ops) =
    faults (operation_fault seen op.id)
    ++ (field_problems (codes "operation " ++ quoted op.id) op
        ++ operation_problems (op.id ∷ seen) ops)

-- What the loops over the capabilities have found so far: `errs`, `seenCap` and `slotOwner`.
pub record CapabilityScan : Type 0 where
  pub problems : List Problem
  pub seen : List Text
  pub owners : Map Text

unfoldable pub slot_fault : CapabilityDecl → List Text → Text → Option Problem
unfolding has_key
slot_fault c slots id =
    if is_empty id
    then some (slot_without_id c.capability)
    else if not (is_op_id id)
    then some (invalid_slot c.capability id)
    else if has_key slots id
    then some (duplicate_slot c.capability id)
    else none

-- The key `p + "|" + op.ID` of `slotOwner`
abbrev pub slot_key : Text → Text → Text
slot_key p slot = p ++ (b'|' ∷ slot)

-- A slot under the parent, with the capability that has taken it, if one has: sub-capabilities of
-- one parent exclude each other.
unfoldable pub claim_under :
    CapabilityDecl → Text → Text → Option Text → CapabilityScan → CapabilityScan
claim_under c p id (some prev) s = record s {
  problems = s.problems ++ contested_slot prev c.capability id p ∷ [];
}
claim_under c p id none s = record s { owners = put (slot_key p id) c.capability s.owners }

unfoldable pub claim_slot : CapabilityDecl → Text → CapabilityScan → CapabilityScan
unfolding claim_under
claim_slot c id s =
    if is_empty (parent c)
    then s
    else claim_under c (parent c) id (lookup (slot_key (parent c) id) s.owners) s

-- The body of the loop over the operations of a capability.
unfoldable pub slot_step :
    CapabilityDecl → OperationDecl → Option Problem → CapabilityScan → CapabilityScan
unfolding claim_slot
slot_step c op (some p) s = record s { problems = s.problems ++ p ∷ [] }
slot_step c op none s =
    let claimed = claim_slot c op.id s in
    let place = codes "capability " ++ (quoted c.capability ++ (codes " slot " ++ quoted op.id)) in
    record claimed { problems = claimed.problems ++ field_problems place op }

abbrev pub slots_with : Text → Option Problem → List Text → List Text
slots_with id none slots = id ∷ slots
slots_with id (some p) slots = slots

unfoldable pub scan_slots :
    CapabilityDecl → List Text → List OperationDecl → CapabilityScan → CapabilityScan
unfolding slot_fault slot_step
scan_slots c slots [] s = s
scan_slots c slots (op ∷ ops) s =
    let fault = slot_fault c slots op.id in
    scan_slots c (slots_with op.id fault slots) ops (slot_step c op fault s)

unfoldable pub capability_fault : List Text → Text → Option Problem
unfolding has_key
capability_fault seen name =
    if is_empty name
    then some capability_without_name
    else if not (is_cap_id name)
    then some (invalid_capability name)
    else if has_key seen name
    then some (duplicate_capability name)
    else none

-- The body of the loop over the capabilities.
unfoldable pub capability_step : CapabilityDecl → Option Problem → CapabilityScan → CapabilityScan
unfolding scan_slots
capability_step c (some p) s = record s { problems = s.problems ++ p ∷ [] }
capability_step c none s = scan_slots c [] c.operations (record s {
  problems =
      s.problems ++ report (is_empty c.operations) (capability_without_operations c.capability);
  seen = c.capability ∷ s.seen;
})

unfoldable pub scan_capabilities : List CapabilityDecl → CapabilityScan → CapabilityScan
unfolding capability_fault capability_step
scan_capabilities [] s = s
scan_capabilities (c ∷ cs) s =
    scan_capabilities cs (capability_step c (capability_fault s.seen c.capability) s)

unfoldable pub capability_problems : List CapabilityDecl → List Problem
unfolding scan_capabilities
capability_problems cs =
    let s = scan_capabilities cs (record { problems = []; seen = []; owners = [] }) in s.problems
