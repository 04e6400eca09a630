-- ===== src/Contract/Schema.antt =====
-- contract/schema.go: the declaration of an operation, and the check of required inputs.
pub mod Required
use sokel_plugin_sdk.Base.{
  ℕ, Text, Bool, true, false, not, Option, none, some, List, [], ◌∷◌, Map, lookup, is_empty,
  if◌then◌else◌,
}
use sokel_plugin_sdk.Contract.Field.{Field, Value, null, str, attributes}

pub record Meta : Type 0 where
  pub id : Text
  pub label : Text
  pub desc : Text
  pub timeout_sec : ℕ
  pub stream : Bool
  pub internal : Bool

-- A nil slice is `none`.
pub record Operation : Type 0 where
  pub id : Text
  pub label : Text
  pub desc : Text
  pub stream : Bool
  pub internal : Bool
  pub timeout_sec : ℕ
  pub capability : Text
  pub inputs : Option (List Field)
  pub outputs : Option (List Field)

-- `Schema`; a nil interface in a slice of specs is `none`.
pub record Declaration : Type 0 where
  pub about : Meta
  pub input_specs : List (Option Field)
  pub output_specs : List (Option Field)

unfoldable build_fields : List (Option Field) → List Field
build_fields [] = []
build_fields (none ∷ specs) = build_fields specs
build_fields (some f ∷ specs) = f ∷ build_fields specs

unfoldable operation_of : Declaration → Operation
operation_of s = record {
  id = s.about.id;
  label = s.about.label;
  desc = s.about.desc;
  stream = s.about.stream;
  internal = s.about.internal;
  timeout_sec = s.about.timeout_sec;
  capability = [];
  inputs = some (build_fields s.input_specs);
  outputs = some (build_fields s.output_specs);
}

abbrev pub fields_of : Option (List Field) → List Field
fields_of none = []
fields_of (some fs) = fs

-- `!ok || v == nil || v == ""`
unfoldable pub is_missing : Option Value → Bool
is_missing none = true
is_missing (some null) = true
is_missing (some (str t)) = is_empty t
is_missing (some _) = false

-- The operation's label, the field's label (its name where that is empty), and its name.
pub record MissingInput : Type 0 where
  pub operation : Text
  pub label : Text
  pub name : Text

missing_input : Operation → Field → MissingInput
missing_input op f = record {
  operation = op.label;
  label = if is_empty (attributes f).label then (attributes f).name else (attributes f).label;
  name = (attributes f).name;
}

first_missing : Operation → Map Value → List Field → Option MissingInput
unfolding is_missing missing_input
first_missing op cfg [] = none
first_missing op cfg (f ∷ fs) =
    if not (attributes f).required
    then first_missing op cfg fs
    else if is_missing (lookup (attributes f).name cfg)
    then some (missing_input op f)
    else first_missing op cfg fs

-- `none` is a nil error.
unfoldable pub require_inputs : Operation → Map Value → Option MissingInput
unfolding first_missing
require_inputs op cfg = first_missing op cfg (fields_of op.inputs)
