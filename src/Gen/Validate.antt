-- ===== src/Gen/Validate.antt =====
-- internal/gen/manifest.go: `Validate`, which reports every problem of a declaration, and
-- `checkCredTypes` of internal/gen/credential.go.
pub mod Parts
pub mod WireIds
use sokel_plugin_sdk.Base.{
  Text, codes, same, trim_space, Bool, true, false, not, ◌&&◌, ◌||◌, Option, none, some, List, [],
  ◌∷◌, ◌++◌, is_empty, if◌then◌else◌,
}
use sokel_plugin_sdk.Gen.Field.{IrFields, no_ir_fields, and_ir_field, ir_attributes}
use sokel_plugin_sdk.Gen.Declaration.{
  Manifest, PluginDecl, AuthDecl, CredentialDecl, CodegenDecl, all_operations,
}
use sokel_plugin_sdk.Gen.Patterns.{is_version, is_org_id}
use sokel_plugin_sdk.Gen.Report.{report}
use sokel_plugin_sdk.Gen.Icons.{icon_is_brand, check_icon_syntax}
use sokel_plugin_sdk.Gen.Check.{has_key, validate_names}
use sokel_plugin_sdk.Gen.Transports.{
  TransportScan, scan_transports, unmapped_problems, protocol_problems, deployment_problems,
}
use sokel_plugin_sdk.Gen.Operations.{operation_problems, capability_problems, faults}
use sokel_plugin_sdk.Gen.EventDecls.{event_problems, validate_common}
use sokel_plugin_sdk.Gen.Direct.{validate_direct_call}
use sokel_plugin_sdk.Gen.Translations.{locale_problems}
use sokel_plugin_sdk.Gen.Problem.{
  Problem, plugin_without_name, invalid_version, invalid_org, icon_file, empty_plugin,
  unknown_credential_type, oauth_without_provider, invalid_auth_kind, invalid_lang,
}

-- The files beside the manifest: `DocMarkdown` at the path of the manifest and `plugin.doc`, and
-- the message of `ValidateIconFile` at the path of the manifest and the value of `plugin.icon`.
pub record Disk : Type 0 where
  pub read_doc : Text → Text → Option Text
  pub icon_fault : Text → Text → Option Text

-- `DocMarkdown`, without its error
unfoldable pub doc_markdown : Disk → Manifest → Option Text
doc_markdown disk m = if is_empty m.plugin.doc then some [] else disk.read_doc m.path m.plugin.doc

abbrev icon_file_problems : Option Text → List Problem
icon_file_problems none = []
icon_file_problems (some fault) = icon_file fault ∷ []

unfoldable pub icon_problems : Disk → Text → Text → List Problem
unfolding icon_is_brand check_icon_syntax
icon_problems disk path icon = elim (check_icon_syntax icon) [
  | some p ↦ p ∷ []
  | none ↦
      if is_empty icon || (icon_is_brand icon || is_empty path)
      then []
      else icon_file_problems (disk.icon_fault path icon)
]

unfoldable pub plugin_problems : PluginDecl → List Problem
plugin_problems p =
    report (is_empty (trim_space p.name)) plugin_without_name
    ++ (report (not (is_empty (trim_space p.version)) && not (is_version (trim_space p.version)))
          (invalid_version (trim_space p.version))
        ++ report (not (is_empty p.org) && not (is_org_id p.org)) (invalid_org p.org))

-- `credFieldTypes`
abbrev cred_field_types : List Text
cred_field_types =
    codes "text"
    ∷ codes "secret"
    ∷ codes "select"
    ∷ codes "url"
    ∷ codes "secret-file"
    ∷ codes "header-list"
    ∷ []

-- `checkCredTypes`, which stops at the first field of another type
unfoldable check_cred_types : IrFields → Option Problem
unfolding has_key
check_cred_types no_ir_fields = none
check_cred_types (and_ir_field f fs) =
    let later = check_cred_types fs in
    let a = ir_attributes f in
    if has_key cred_field_types a.type_name
    then later
    else some (unknown_credential_type a.name a.type_name)

unfoldable auth_problems : Option AuthDecl → List Problem
auth_problems none = []
auth_problems (some a) =
    if same a.kind (codes "qr") || same a.kind (codes "input")
    then []
    else if same a.kind (codes "oauth")
    then report (is_empty a.provider) oauth_without_provider
    else invalid_auth_kind a.kind ∷ []

unfoldable pub credential_problems : Option CredentialDecl → List Problem
unfolding check_cred_types validate_names auth_problems
credential_problems none = []
credential_problems (some c) =
    faults (check_cred_types c.fields)
    ++ (validate_names (codes "credential.fields") [] c.fields ++ auth_problems c.auth)

unfoldable pub codegen_problems : List CodegenDecl → List Problem
codegen_problems [] = []
codegen_problems (c ∷ cs) =
    report
      (not (same c.lang (codes "go") || (same c.lang (codes "ts") || same c.lang (codes "python"))))
      (invalid_lang c.lang)
    ++ codegen_problems cs

unfoldable scan_of : Manifest → TransportScan
unfolding scan_transports
scan_of m = scan_transports 0 m.transports (record { problems = []; seen = []; call_out = false })

unfoldable pub empty_problems : Manifest → List Problem
unfolding has_key scan_of
empty_problems m =
    report
      ((is_empty m.operations && is_empty m.events)
        && (is_empty m.implements && not (has_key (scan_of m).seen (codes "mcp"))))
      empty_plugin

unfoldable pub transport_problems : Manifest → List Problem
unfolding scan_of unmapped_problems protocol_problems all_operations
transport_problems m =
    (scan_of m).problems
    ++ ((if (scan_of m).call_out then unmapped_problems (all_operations m) else [])
        ++ protocol_problems (all_operations m))

-- The problems, in the order of the message; there is no error if there are none.
unfoldable pub validate : Disk → Manifest → List Problem
unfolding plugin_problems icon_problems transport_problems deployment_problems locale_problems
    doc_markdown empty_problems operation_problems validate_direct_call capability_problems
    event_problems validate_common credential_problems codegen_problems
validate disk m =
    plugin_problems m.plugin
    ++ (icon_problems disk m.path (trim_space m.plugin.icon)
        ++ (transport_problems m
            ++ (deployment_problems m.deployment
                ++ (locale_problems (doc_markdown disk m) m
                    ++ (empty_problems m
                        ++ (operation_problems [] m.operations
                            ++ (validate_direct_call (all_operations m) m.credential
                                ++ (capability_problems m.implements
                                    ++ (event_problems [] m.events
                                        ++ (validate_common m.events m.events_common
                                            ++ (credential_problems m.credential
                                                ++ codegen_problems m.codegen)))))))))))
