-- ===== src/Tests/CallTests.antt =====
-- Calls, webhooks, triggers and registrations.
use sokel_plugin_sdk.Base.{
  Text, codes, same, true, false, none, some, Option, List, [], ◌∷◌, Map, lookup, All, In, Result,
  ok, err, ◌≡◌, ◌↔◌, refl, pos,
}
use sokel_plugin_sdk.Contract.Field.{Value, str}
use sokel_plugin_sdk.Contract.Schema.{Operation}
use sokel_plugin_sdk.Sokel.Errors.{GoError, plain, coded, code_retryable, ErrorReply}
use sokel_plugin_sdk.Sokel.Errors.Codes.{wrap_all}
use sokel_plugin_sdk.Sokel.OpIds.{must_business_op_id}
use sokel_plugin_sdk.Sokel.OpIds.Accepted.{IsBusinessId, must_business_op_id_iff}
use sokel_plugin_sdk.Sokel.Frames.{Emission, text, vars, frames_of, made}
use sokel_plugin_sdk.Sokel.Frames.Merge.{last_value}
use sokel_plugin_sdk.Sokel.Triggers.{
  no_payload, Bus, SourceCtx, Script, finish, ask_trigger, ask_update, report, run_script,
}
use sokel_plugin_sdk.Sokel.Triggers.Routing.{IsRouted, run_script-IsRouted}
use sokel_plugin_sdk.Sokel.Webhook.{WebhookRequest, WebhookResponse, equal_fold}
use sokel_plugin_sdk.Sokel.Plugin.{
  Ctx, Ending, returned, OpEntry, Plugin, new_plugin, register, register_op, find, invoke_buffered,
  unknown_operation,
}
use sokel_plugin_sdk.Sokel.Dispatch.{
  Call, variables, msg_with_instance, entry_for, run_entry, dispatch_nats,
}
use sokel_plugin_sdk.Sokel.Dispatch.Replies.{
  dispatch_nats-last_value, dispatch_nats-coded, error_message,
}
use sokel_plugin_sdk.Sokel.Dispatch.Fallback.{dispatch_nats_only}

must_business_op_id_iff_example :
    (must_business_op_id (codes "_list2") ≡ ok tt) ↔ IsBusinessId (codes "_list2")
must_business_op_id_iff_example = must_business_op_id_iff (codes "_list2")

abbrev open_bus : Bus
open_bus = record { marshal = λ m. none; publish = λ m. none }

abbrev decode_any : Text → Result Text WebhookRequest
decode_any t = ok (record { method = codes "POST"; path = []; query = []; headers = []; body = t })

abbrev emitted_twice : List Emission
emitted_twice =
    text (codes "working")
    ∷ vars (some ((codes "n", str (codes "1")) ∷ []))
    ∷ vars (some ((codes "n", str (codes "2")) ∷ []))
    ∷ []

abbrev list_op : Operation
list_op = record {
  id = codes "list";
  label = codes "List";
  desc = [];
  stream = false;
  internal = false;
  timeout_sec = 0;
  capability = [];
  inputs = none;
  outputs = none;
}

abbrev list_entry : OpEntry
list_entry = record {
  op = list_op;
  invoke = λ ctx input. record { emissions = emitted_twice; error = none };
}

abbrev rate_limited : GoError
rate_limited = wrap_all (codes "listing" ∷ []) (coded code_retryable (plain (codes "429")))

abbrev failing_entry : OpEntry
failing_entry = record {
  op = list_op;
  invoke = λ ctx input. record { emissions = []; error = some rate_limited };
}

abbrev empty_plugin : Plugin
empty_plugin = new_plugin (record { endpoint = []; token = codes "skp"; name = codes "demo" })

abbrev with_entry : OpEntry → Plugin
with_entry e = record empty_plugin { ops = e ∷ [] }

abbrev call_of : Text → Call
call_of name = record {
  operation = name;
  input = [];
  credential = [];
  credential_id = [];
  trace = [];
  file_ticket = [];
  deadline_ms = pos 0;
}

abbrev inbox : Text
inbox = codes "_INBOX.1"

calls : Unit {0}
unfolding entry_for find run_entry dispatch_nats same lookup
calls = tt

list_found : entry_for (with_entry list_entry) (codes "list") ≡ some list_entry
unfolding calls
list_found = refl

failing_found : entry_for (with_entry failing_entry) (codes "list") ≡ some failing_entry
unfolding calls
failing_found = refl

dispatch_nats-last_value_example :
    (m : Option (Map Value)) × ((dispatch_nats open_bus decode_any
        (codes "r1")
        (with_entry list_entry)
        inbox
        (call_of (codes "list"))).to_caller
      ≡ msg_with_instance inbox (codes "r1") (variables m) ∷ [])
    × ((k : Text) → lookup k (made m) ≡ last_value k (frames_of emitted_twice))
unfolding calls frames_of
dispatch_nats-last_value_example =
    dispatch_nats-last_value open_bus decode_any (codes "r1") (with_entry list_entry) inbox
      (call_of (codes "list")) list_entry (λ e. cc) (λ e. cc) list_found refl refl
      (tt, ((refl, tt), ((refl, tt), tt)))

dispatch_nats-coded_example :
    (r : ErrorReply) × In
      (error_message false inbox (codes "r1") r)
      (dispatch_nats open_bus decode_any
        (codes "r1")
        (with_entry failing_entry)
        inbox
        (call_of (codes "list"))).to_caller
    × (r.code ≡ code_retryable)
dispatch_nats-coded_example =
    dispatch_nats-coded open_bus decode_any (codes "r1") (with_entry failing_entry) inbox
      (call_of (codes "list")) failing_entry (λ e. cc) (λ e. cc) failing_found
      (codes "listing" ∷ []) code_retryable (plain (codes "429")) refl

abbrev no_ctx : Ctx
no_ctx = record { credential = []; trace = []; file_ticket = []; deadline = none }

dispatch_nats_only_example :
    ((dispatch_nats open_bus decode_any
        (codes "r1")
        (with_entry list_entry)
        inbox
        (call_of (codes "delete"))).to_caller
      ≡ run_entry (codes "r1") inbox list_entry (call_of (codes "delete")))
    × (invoke_buffered (with_entry list_entry) no_ctx (codes "delete") []
        ≡ err (unknown_operation (codes "delete")))
dispatch_nats_only_example =
    dispatch_nats_only open_bus decode_any (codes "r1") (with_entry list_entry) inbox
      (call_of (codes "delete")) list_entry no_ctx refl (λ e. cc) (λ e. cc) (λ e. cc) (λ e. cc)

abbrev panic_text : Text → Text → Text
panic_text op_id v = v

abbrev list_handler : Ctx → Text → List Emission × Ending
list_handler ctx input = (emitted_twice, returned)

registered :
    (q : Plugin) × (register panic_text (λ t. ok t) none none empty_plugin list_op list_handler
      ≡ ok q)
unfolding register must_business_op_id same
registered = (_, refl)

registered_op : (q : Plugin) × (register_op panic_text empty_plugin list_op list_handler ≡ ok q)
unfolding register_op must_business_op_id same
registered_op = (_, refl)

-- A source that pushes a declared and an undeclared event, and writes its session back.
abbrev bot_ctx : SourceCtx
bot_ctx = record {
  token = codes "skp";
  valid = (codes "message", true) ∷ [];
  cred = [];
  cred_id = codes "b1";
  source_id = codes "poll";
}

abbrev bot_script : {R : Type 0} → R → Script R
bot_script r = ask_trigger (codes "message") (codes "1") no_payload λ a.
    ask_trigger (codes "mesage") (codes "2") no_payload λ b.
      ask_update ((codes "session", codes "s") ∷ []) λ c. report (codes "running") [] (finish r)

run_script-IsRouted_example :
    All (IsRouted bot_ctx) (run_script [] bot_ctx open_bus (bot_script (tt {0})) none).published
run_script-IsRouted_example = run_script-IsRouted [] bot_ctx open_bus (bot_script (tt {0})) none

header_names_fold : equal_fold (codes "X-Gitlab-Token") (codes "x-gitlab-token") ≡ true
unfolding equal_fold
header_names_fold = refl

abbrev hook : WebhookRequest → Script WebhookResponse
hook req = bot_script (record { status = 0; headers = []; body = [] })
