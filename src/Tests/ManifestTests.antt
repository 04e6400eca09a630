-- ===== src/Tests/ManifestTests.antt =====
-- internal/gen/manifest.go on small declarations.
use sokel_plugin_sdk.Base.{
  Text, codes, false, none, some, [], ◌∷◌, map, IsDistinct, pos, ◌≡◌, ◌↔◌, refl, arith, is_empty,
  lookup, put, same, trim_space, has_prefix,
}
use sokel_plugin_sdk.Contract.Field.{null}
use sokel_plugin_sdk.Gen.Field.{
  IrField, IrFields, ir_field, no_ir_fields, and_ir_field, no_ir_variants, no_ir_value_type,
}
use sokel_plugin_sdk.Gen.Declaration.{
  Manifest, EventDecl, parent, OperationDecl, CapabilityDecl, CredentialDecl, all_operations,
}
use sokel_plugin_sdk.Gen.Check.{validate_fields}
use sokel_plugin_sdk.Gen.Check.Sound.{IsSound, validate_fields_iff}
use sokel_plugin_sdk.Gen.Validate.{Disk, validate}
use sokel_plugin_sdk.Gen.Patterns.{is_version, is_op_id, is_op_char, is_field_id, is_cap_id}
use sokel_plugin_sdk.Gen.Names.{export_name, export_part, cap_type_prefix}
use sokel_plugin_sdk.Gen.Operations.Exclusive.{claims}
use sokel_plugin_sdk.Gen.EventDecls.{find_ir_field, validate_common}
use sokel_plugin_sdk.Gen.EventDecls.Twin.{
  succeeds, AreTwins, found_type, found_ir_type, validate_common-twin,
}
use sokel_plugin_sdk.Contract.Field.{plain, blank, t_string}
use sokel_plugin_sdk.Contract.Events.{Event, find_field, validate_common_fields}
use sokel_plugin_sdk.Sokel.Sources.{sort_texts}
use sokel_plugin_sdk.Gen.Validate.WireIds.{validate-IsDistinct, validate-claims}

abbrev plain_field : Text → Text → IrField
plain_field name type_name =
    ir_field
      (record {
        name = name;
        label = [];
        type_name = type_name;
        types = [];
        required = false;
        default = null;
        desc = [];
        placeholder = [];
        help = [];
        options = [];
        go_type = [];
        item_type = [];
        opaque = false;
        place = [];
        param = [];
        from_path = [];
      })
      no_ir_fields no_ir_variants no_ir_value_type

abbrev one_field : Text → Text → IrFields
one_field name type_name = and_ir_field (plain_field name type_name) no_ir_fields

abbrev operation : Text → Text → OperationDecl
operation id path = record {
  id = id;
  label = [];
  desc = [];
  stream = false;
  internal = false;
  timeout_sec = pos 0;
  inputs = one_field (codes "q") (codes "string");
  outputs = no_ir_fields;
  protocol = [];
  http = some (record { method = codes "GET"; path = path; body_type = [] });
  graphql = none;
  headers = [];
}

abbrev credential : CredentialDecl
credential = record {
  auth = none;
  fields = one_field (codes "token") (codes "secret");
  inject =
      (record {
        place = codes "header";
        key = codes "Authorization";
        value = codes "Bearer {{ token }}";
        user = [];
        pass = [];
      })
      ∷ [];
}

abbrev capability : Text → Text → CapabilityDecl
capability name slot = record {
  capability = name;
  operations = operation slot (codes "/s/{q}") ∷ [];
}

-- One operation, one capability and its two sub-capabilities.
abbrev demo : Manifest
demo = record {
  plugin = record {
    org = [];
    name = codes "demo";
    label = [];
    desc = [];
    version = codes "v1.0.0";
    doc = [];
    doc_url = [];
    icon = codes "brand:demo";
  };
  capabilities = [];
  credential = some credential;
  events = [];
  events_common = [];
  operations = operation (codes "query") (codes "/q/{q}") ∷ [];
  implements =
      capability (codes "rows") (codes "query")
      ∷ capability (codes "rows/a") (codes "find")
      ∷ capability (codes "rows/b") (codes "scan")
      ∷ [];
  transports = (record { kind = codes "http"; deployment = none }) ∷ [];
  deployment = none;
  codegen = [];
  locales = [];
  path = [];
}

abbrev no_files : Disk
no_files = record { read_doc = λ path doc. none; icon_fault = λ path icon. none }

validate_fields_iff_example :
    (validate_fields (codes "inputs") (one_field (codes "q") (codes "string")) ≡ [])
    ↔ IsSound (one_field (codes "q") (codes "string"))
validate_fields_iff_example =
    validate_fields_iff (codes "inputs") (one_field (codes "q") (codes "string"))

demo_quiet : validate no_files demo ≡ []
unfolding validate trim_space is_version has_prefix same sort_texts is_op_id is_op_char
    validate_fields is_field_id is_cap_id parent lookup put
demo_quiet = refl

validate-IsDistinct_example : IsDistinct (map (λ fo. fo.decl.id) (all_operations demo))
validate-IsDistinct_example = validate-IsDistinct no_files demo demo_quiet

validate-claims_example : IsDistinct (claims demo.implements)
validate-claims_example = validate-claims no_files demo demo_quiet

-- A declaration whose operation and slot get the same Go name, without a problem.
abbrev clash : Manifest
clash = record demo {
  operations = operation (codes "rows_query") (codes "/q/{q}") ∷ [];
  implements = capability (codes "rows") (codes "query") ∷ [];
}

clash_quiet : validate no_files clash ≡ []
unfolding validate trim_space is_version has_prefix same sort_texts is_op_id is_op_char
    validate_fields is_field_id is_cap_id parent lookup put
clash_quiet = refl

clash_names :
    map (λ fo. fo.type_name) (all_operations clash) ≡ codes "RowsQuery" ∷ codes "RowsQuery" ∷ []
unfolding all_operations export_name lookup same export_part cap_type_prefix
clash_names = refl

one_quiet : validate_fields (codes "inputs") (one_field (codes "q") (codes "string")) ≡ []
unfolding validate_fields same is_field_id
one_quiet = refl

abbrev go_event : Event
go_event = record {
  id = codes "message";
  label = [];
  desc = [];
  fields = plain (record blank { name = codes "chat"; param_type = t_string }) ∷ [];
}

abbrev manifest_event : EventDecl
manifest_event = record {
  id = codes "message";
  label = [];
  desc = [];
  fields = one_field (codes "chat") (codes "string");
}

twin_types :
    (k : Text)
    → found_ir_type (find_ir_field manifest_event.fields k)
      ≡ found_type (find_field go_event.fields k)
unfolding find_ir_field find_field
twin_types k = ground arith

twins : AreTwins (go_event ∷ []) (manifest_event ∷ [])
twins = ((refl, twin_types), tt)

validate_common-twin_example :
    succeeds (validate_common_fields (go_event ∷ []) (codes "chat" ∷ []))
    ≡ is_empty (validate_common (manifest_event ∷ []) (codes "chat" ∷ []))
validate_common-twin_example =
    validate_common-twin (go_event ∷ []) (manifest_event ∷ []) (codes "chat" ∷ []) twins
