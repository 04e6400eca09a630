-- ===== src/Gen/Translations.antt =====
-- internal/gen/manifest.go: the strings that a locale file may translate.
use sokel_plugin_sdk.Base.{
  Text, trim_space, not, Option, none, some, List, [], ◌∷◌, ◌++◌, map, is_empty, Map, lookup,
  if◌then◌else◌,
}
use sokel_plugin_sdk.Sokel.Sources.{sort_texts}
use sokel_plugin_sdk.Gen.Field.{
  IrAttributes, IrField, IrFields, IrVariants, IrValueType, ir_field, no_ir_fields, and_ir_field,
  no_ir_variants, and_ir_variant, no_ir_value_type, ir_value_type,
}
use sokel_plugin_sdk.Gen.Declaration.{
  Manifest, OperationDecl, CapabilityDecl, EventDecl, CredentialDecl, FlatOp, all_operations,
}
use sokel_plugin_sdk.Gen.Report.{report}
use sokel_plugin_sdk.Gen.Check.{has_key}
use sokel_plugin_sdk.Gen.Problem.{Problem, orphaned_translation}

unfoldable mutual
  -- `walkFieldList`: the fields that it visits, in order.
  pub walk_field : IrField → List IrAttributes
  walk_field (ir_field a fs vs vt) =
      a ∷ walk_field_list fs ++ (walk_variants vs ++ walk_value_type vt)

  pub walk_field_list : IrFields → List IrAttributes
  walk_field_list no_ir_fields = []
  walk_field_list (and_ir_field f fs) = walk_field f ++ walk_field_list fs

  pub walk_variants : IrVariants → List IrAttributes
  walk_variants no_ir_variants = []
  walk_variants (and_ir_variant h fs vs) = walk_field_list fs ++ walk_variants vs

  pub walk_value_type : IrValueType → List IrAttributes
  walk_value_type no_ir_value_type = []
  walk_value_type (ir_value_type f) = walk_field f

unfoldable walk_operations : List OperationDecl → List IrAttributes
unfolding walk_field
walk_operations [] = []
walk_operations (op ∷ ops) =
    walk_field_list op.inputs ++ (walk_field_list op.outputs ++ walk_operations ops)

unfoldable walk_capabilities : List CapabilityDecl → List IrAttributes
unfolding walk_operations
walk_capabilities [] = []
walk_capabilities (c ∷ cs) = walk_operations c.operations ++ walk_capabilities cs

unfoldable walk_events : List EventDecl → List IrAttributes
unfolding walk_field
walk_events [] = []
walk_events (e ∷ es) = walk_field_list e.fields ++ walk_events es

unfoldable walk_credential : Option CredentialDecl → List IrAttributes
unfolding walk_field
walk_credential none = []
walk_credential (some c) = walk_field_list c.fields

-- `walkFields` with a function that only reads.
unfoldable walk_fields : Manifest → List IrAttributes
unfolding walk_operations walk_capabilities walk_events walk_credential
walk_fields m =
    walk_operations m.operations
    ++ (walk_capabilities m.implements ++ (walk_events m.events ++ walk_credential m.credential))

-- `add`, whose set is the list of its members
unfoldable add_strings : List Text → List Text
add_strings [] = []
add_strings (s ∷ ss) =
    let rest = add_strings ss in if is_empty (trim_space s) then rest else s ∷ rest

unfoldable field_strings : List IrAttributes → List Text
unfolding add_strings
field_strings [] = []
field_strings (a ∷ fs) =
    add_strings (a.label ∷ a.desc ∷ a.help ∷ a.placeholder ∷ map (λ o. o.label) a.options)
    ++ field_strings fs

unfoldable operation_strings : List FlatOp → List Text
unfolding add_strings
operation_strings [] = []
operation_strings (fo ∷ fos) =
    add_strings (fo.decl.label ∷ fo.decl.desc ∷ []) ++ operation_strings fos

unfoldable event_strings : List EventDecl → List Text
unfolding add_strings
event_strings [] = []
event_strings (e ∷ es) = add_strings (e.label ∷ e.desc ∷ []) ++ event_strings es

abbrev doc_strings : Option Text → List Text
doc_strings none = []
doc_strings (some doc) = add_strings (doc ∷ [])

-- `doc` is what `DocMarkdown` returns, without its error.
unfoldable translatable_strings : Option Text → Manifest → List Text
unfolding add_strings operation_strings event_strings field_strings walk_fields all_operations
translatable_strings doc m =
    add_strings (m.plugin.label ∷ m.plugin.desc ∷ [])
    ++ (doc_strings doc
        ++ (operation_strings (all_operations m)
            ++ (event_strings m.events ++ field_strings (walk_fields m))))

abbrev sorted_keys {ℓ} : {A : Type ℓ} → Map A → List Text
sorted_keys m = sort_texts (map (λ e. e.0) m)

abbrev pub table : Map (Map Text) → Text → Map Text
table m lang = elim (lookup lang m) [ none ↦ [] | some t ↦ t ]

unfoldable orphans : List Text → Text → List Text → List Problem
unfolding has_key
orphans known lang [] = []
orphans known lang (src ∷ srcs) =
    report (not (has_key known src)) (orphaned_translation lang src) ++ orphans known lang srcs

unfoldable locale_orphans : List Text → Map (Map Text) → List Text → List Problem
unfolding orphans
locale_orphans known m [] = []
locale_orphans known m (lang ∷ langs) =
    orphans known lang (sorted_keys (table m lang)) ++ locale_orphans known m langs

-- The check of the translations, where the declaration has some.
unfoldable pub locale_problems : Option Text → Manifest → List Problem
unfolding locale_orphans translatable_strings
locale_problems doc m =
    locale_orphans (translatable_strings doc m) m.locales (sorted_keys m.locales)
