-- ===== src/Gen/Problem.antt =====
-- internal/gen/manifest.go: the problems that the validation of a declaration reports.
use sokel_plugin_sdk.Base.{Text, ℕ}

-- The message about a field; the place is the text in front of the message.
pub data FieldFault : Type 0 where
  no_name : FieldFault
  invalid_name : Text → FieldFault
  duplicate_name : Text → FieldFault
  no_type : FieldFault
  unknown_type : Text → FieldFault
  unknown_union_type : Text → FieldFault
  enum_without_options : FieldFault
  options_without_enum : FieldFault
  fields_and_value_type : FieldFault
  undefined_structure : Text → FieldFault
  opaque_scalar : FieldFault
  opaque_without_reason : FieldFault
  opaque_with_structure : FieldFault
  branch_without_name : FieldFault
  branch_without_type : Text → FieldFault

-- The arguments are the positions and names that tell which part of the declaration is at fault.
pub data Problem : Type 0 where
  at : Text → FieldFault → Problem
  plugin_without_name : Problem
  invalid_version : Text → Problem
  invalid_org : Text → Problem
  invalid_icon : Text → Problem
  icon_file : Text → Problem
  transport_without_kind : ℕ → Problem
  unknown_transport : ℕ → Text → Problem
  repeated_transport : Text → Problem
  transport_with_deployment : ℕ → Text → Problem
  unmapped_operation : Text → Problem
  unknown_protocol : Text → Text → Problem
  deployment_without_targets : Problem
  unknown_target : ℕ → Text → Problem
  target_without_ref : ℕ → Problem
  env_without_name : Problem
  reserved_env : Text → Problem
  orphaned_translation : Text → Text → Problem
  empty_plugin : Problem
  operation_without_id : Problem
  operation_in_reserved_namespace : Text → Problem
  invalid_operation : Text → Problem
  old_auth_operation : Text → Problem
  duplicate_operation : Text → Problem
  capability_without_name : Problem
  invalid_capability : Text → Problem
  duplicate_capability : Text → Problem
  capability_without_operations : Text → Problem
  slot_without_id : Text → Problem
  invalid_slot : Text → Text → Problem
  duplicate_slot : Text → Text → Problem
  contested_slot : Text → Text → Text → Text → Problem
  event_without_id : Problem
  invalid_event : Text → Problem
  duplicate_event : Text → Problem
  common_without_events : Problem
  common_reserved : Text → Problem
  common_event_id : Text → Problem
  common_missing : Text → Text → Problem
  common_type_differs : Text → Text → Text → Problem
  unknown_credential_type : Text → Text → Problem
  oauth_without_provider : Problem
  invalid_auth_kind : Text → Problem
  invalid_lang : Text → Problem
  param_without_mapping : Text → Text → Problem
  input_with_from : Text → Text → Problem
  unknown_place : Text → Text → Text → Problem
  place_without_mapping : Text → Text → Problem
  place_not_in_path : Text → Text → Text → Problem
  unfilled_placeholder : Text → Text → Problem
  output_with_place : Text → Text → Problem
  from_without_mapping : Text → Text → Problem
  invalid_from : Text → Text → Text → Problem
  unknown_inject_place : ℕ → Text → Problem
  basic_without_user : ℕ → Problem
  inject_without_key : ℕ → Text → Problem
  unknown_inject_field : ℕ → Text → Problem
  literal_secret : ℕ → Problem
