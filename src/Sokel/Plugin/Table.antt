-- ===== src/Sokel/Plugin/Table.antt =====
-- The table of operations that `Register` and `RegisterOp` build.
use sokel_plugin_sdk.Base.{
  Text, same, Option, none, some, List, [], ◌∷◌, ◌++◌, Result, ok, >>=-eq-ok, ok-injective, ◌≡◌,
  ◌≢◌, refl, arith, is_empty, ne_of_is_empty, ◌⊎◌, if◌then◌else◌, Bool-cases, inl, inr,
}
use sokel_plugin_sdk.Contract.Field.{Field}
use sokel_plugin_sdk.Contract.Schema.{Operation}
use sokel_plugin_sdk.Sokel.OpIds.{must_business_op_id}
use sokel_plugin_sdk.Sokel.OpIds.Accepted.{IsBusinessId, must_business_op_id_iff}
use sokel_plugin_sdk.Sokel.Errors.{GoError}
use sokel_plugin_sdk.Sokel.Frames.{Emission}
use sokel_plugin_sdk.Sokel.Plugin.{
  Ctx, Ending, OpEntry, Plugin, filled, register_typed, register, register_op, find_by_id,
}

abbrev or_entry : Option OpEntry → Option OpEntry → Option OpEntry
or_entry (some e) rest = some e
or_entry none rest = rest

find_by_id-append :
    (es fs : List OpEntry) (id : Text)
    → find_by_id (es ++ fs) id ≡ or_entry (find_by_id es id) (find_by_id fs id)
unfolding find_by_id
find_by_id-append [] fs id = refl
find_by_id-append (e ∷ es) fs id = ground (arith, find_by_id-append es fs id)

-- Registration reports slices that are not nil.
abbrev IsReported : OpEntry → Type 0
IsReported e = (e.op.inputs ≢ none) × (e.op.outputs ≢ none)

filled-ne-none : (given derived : Option (List Field)) → filled given derived ≢ none
unfolding filled
filled-ne-none (some fs) derived h = cc
filled-ne-none none (some fs) h = cc
filled-ne-none none none h = cc

-- What a registration under `id` did to the table of `p`: one operation stands behind the others,
-- with a contract that is not nil, and is found where no earlier one has the id.
abbrev Added : Text → Plugin → Plugin → Type 0
Added id p q =
    (e : OpEntry) × (q.ops ≡ p.ops ++ e ∷ [])
    × (e.op.id ≡ id)
    × ((j : Text)
        → find_by_id q.ops j ≡ or_entry (find_by_id p.ops j) (if same id j then some e else none))
    × IsReported e

added :
    (p : Plugin) (e : OpEntry) → IsReported e → Added e.op.id p (record p { ops = p.ops ++ e ∷ [] })
unfolding find_by_id
added p e h = (e, refl, refl, λ j. find_by_id-append p.ops (e ∷ []) j, h)

module _ (panic_text : Text → Text → Text) where
  -- A registration that does not panic has a valid business id, and adds one operation behind the
  -- others, so an id that is already taken keeps its first operation.
  pub register-Added :
      {In : Type 0} (bind : Text → Result GoError In) (derived_in derived_out : Option (List Field))
      (p q : Plugin) (op : Operation) (h : Ctx → In → List Emission × Ending)
      → register panic_text bind derived_in derived_out p op h ≡ ok q
      → IsBusinessId op.id × Added op.id p q
  unfolding register
  register-Added bind derived_in derived_out p q op h e =
      let (_, valid, done) =
        >>=-eq-ok (must_business_op_id op.id)
          (λ _. ok (register_typed panic_text bind derived_in derived_out p op h)) e in
      (
        (must_business_op_id_iff op.id).0 valid,
        rw (← ok-injective done) (
            added p _ (filled-ne-none op.inputs derived_in, filled-ne-none op.outputs derived_out)),
      )

  -- A registration by `RegisterOp` that does not panic has a valid business id, except where the
  -- operation fills a capability slot, and adds one operation behind the others, so an id that is
  -- already taken keeps its first operation.
  pub register_op-Added :
      (p q : Plugin) (op : Operation) (inv : Ctx → Text → List Emission × Ending)
      → register_op panic_text p op inv ≡ ok q
      → ((op.capability ≢ []) ⊎ IsBusinessId op.id) × Added op.id p q
  unfolding register_op
  register_op-Added p q op inv e = elim (Bool-cases (is_empty op.capability)) [
    | inl business ↦
        let (_, valid, done) = >>=-eq-ok (must_business_op_id op.id) _ (rw business at e) in
        (
          inr ((must_business_op_id_iff op.id).0 valid),
          rw (← ok-injective done)
              (added p _ (filled-ne-none op.inputs none, filled-ne-none op.outputs none)),
        )
    | inr slot ↦ (
      inl (ne_of_is_empty op.capability slot),
      rw (← ok-injective (rw slot at e))
          (added p _ (filled-ne-none op.inputs none, filled-ne-none op.outputs none)),
    )
  ]
