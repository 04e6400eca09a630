-- ===== src/Sokel/Dispatch/Fallback.antt =====
-- The lookup of an operation by `dispatchNATS` of sokel/transport_nats.go and by `invokeBuffered` of
-- sokel/sokel.go.
use sokel_plugin_sdk.Base.{
  Text, codes, same_of_ne, is_empty_of_ne, none, some, [], ◌∷◌, Result, err, ◌≡◌, ◌≢◌, ap, ◌∙◌,
}
use sokel_plugin_sdk.Sokel.Triggers.{Bus}
use sokel_plugin_sdk.Sokel.Webhook.{WebhookRequest}
use sokel_plugin_sdk.Sokel.Plugin.{
  Ctx, OpEntry, Plugin, find, find_by_id, only_entry, unknown_operation, invoke_buffered,
}
use sokel_plugin_sdk.Sokel.Dispatch.{Call, entry_for, run_entry, dispatch_nats}
use sokel_plugin_sdk.Sokel.Dispatch.Replies.{dispatch_nats-run}

find_by_id_singleton :
    (e : OpEntry) (name : Text) → e.op.id ≢ name → find_by_id (e ∷ []) name ≡ none
unfolding find_by_id
find_by_id_singleton e name ne = rw (same_of_ne e.op.id name ne)

find_only_ne :
    (p : Plugin) (e : OpEntry) (name : Text)
    → p.ops ≡ e ∷ []
    → e.op.id ≢ name
    → name ≢ []
    → find p name ≡ none
unfolding find find_by_id
find_only_ne p e name only ne some_name =
    let absent : find_by_id p.ops name ≡ none =
      ap (λ es. find_by_id es name) only ∙ find_by_id_singleton e name ne in
    rw (absent, find) (rw (is_empty_of_ne name some_name))

entry_for_only :
    (p : Plugin) (e : OpEntry) (name : Text)
    → p.ops ≡ e ∷ []
    → find p name ≡ none
    → entry_for p name ≡ some e
unfolding entry_for only_entry
entry_for_only p e name only missing = rw (missing, entry_for) (ap only_entry only)

-- In a plugin with one operation, a call over the transport that names another operation, not empty
-- and not the webhook, and has a reply subject, runs the only operation, while a buffered call of
-- the same name is refused as unknown.
pub dispatch_nats_only :
    (bus : Bus) (decode : Text → Result Text WebhookRequest) (instance_id : Text) (p : Plugin)
    (reply : Text) (call : Call) (e : OpEntry) (ctx : Ctx)
    → p.ops ≡ e ∷ []
    → reply ≢ []
    → call.operation ≢ codes "__webhook__"
    → call.operation ≢ []
    → e.op.id ≢ call.operation
    → ((dispatch_nats bus decode instance_id p reply call).to_caller
        ≡ run_entry instance_id reply e call)
      × (invoke_buffered p ctx call.operation call.input ≡ err (unknown_operation call.operation))
unfolding invoke_buffered
dispatch_nats_only bus decode instance_id p reply call e ctx only given is_op named ne =
    let missing = find_only_ne p e call.operation only ne named in
    (
      dispatch_nats-run bus decode instance_id p reply call e given is_op
          (entry_for_only p e call.operation only missing),
      rw (missing, invoke_buffered),
    )
