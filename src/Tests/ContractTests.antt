-- ===== src/Tests/ContractTests.antt =====
-- Contracts.
use sokel_plugin_sdk.Base.{none, some, true, false, Map, codes, same, List, [], ◌∷◌, ok, ◌≡◌, refl}
use sokel_plugin_sdk.Contract.Schema.{Operation}
use sokel_plugin_sdk.Contract.Field.{Value, str, Field, plain, blank, t_string, t_number}
use sokel_plugin_sdk.Contract.Events.{
  Event, event_reserved, is_event_id, find_field, validate_common_fields,
}

abbrev chat_id : Field
chat_id = plain (record blank { name = codes "chat_id"; param_type = t_string })

abbrev size : Field
size = plain (record blank { name = codes "size"; param_type = t_number })

abbrev two_events : List Event
two_events =
    record { id = codes "message"; label = []; desc = []; fields = chat_id ∷ [] }
    ∷ record { id = codes "photo"; label = []; desc = []; fields = size ∷ chat_id ∷ [] }
    ∷ []

shared : validate_common_fields two_events (codes "chat_id" ∷ []) ≡ ok (chat_id ∷ [])
unfolding validate_common_fields event_reserved is_event_id find_field same
shared = refl

-- A query with one required and one optional input.
abbrev query_op : Operation
query_op = record {
  id = codes "query";
  label = codes "Query";
  desc = [];
  stream = false;
  internal = false;
  timeout_sec = 0;
  capability = [];
  inputs = some (
      plain (record blank { name = codes "sql"; param_type = t_string; required = true })
      ∷ plain (record blank { name = codes "limit"; param_type = t_number })
      ∷ []);
  outputs = none;
}

abbrev query_input : Map Value
query_input = (codes "sql", str (codes "select 1")) ∷ []
