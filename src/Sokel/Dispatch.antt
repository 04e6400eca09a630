-- ===== src/Sokel/Dispatch.antt =====
-- sokel/transport_nats.go: one call that arrives on the plugin's subject.
pub mod Answers
pub mod Replies
pub mod Fallback
use sokel_plugin_sdk.Base.{
  ℕ, zero, suc, Text, codes, same, Bool, true, false, Option, none, some, List, [], ◌∷◌, ◌++◌, Map,
  map, Result, ok, err, is_empty, ℤ, pos, negsuc, if◌then◌else◌,
}
use sokel_plugin_sdk.Contract.Field.{Value}
use sokel_plugin_sdk.Sokel.Errors.{ErrorReply, error_reply, GoError}
use sokel_plugin_sdk.Sokel.Frames.{
  Frame, Emission, BufferSink, empty_sink, buffer_all, frames_of, error_frame,
}
use sokel_plugin_sdk.Sokel.Triggers.{Published, Bus, SourceCtx, valid_from}
use sokel_plugin_sdk.Sokel.Webhook.{WebhookRequest, WebhookReply, handle_webhook_frame}
use sokel_plugin_sdk.Sokel.Plugin.{Ctx, Run, OpEntry, Plugin, find, only_entry}

-- The decoded message.
pub record Call : Type 0 where
  pub operation : Text
  pub input : Text
  pub credential : Map Text
  pub credential_id : Text
  pub trace : Map Text
  pub file_ticket : Text
  pub deadline_ms : ℤ

-- What a reply holds: a frame of a stream, its terminator, the merged variables, an error, the
-- refusal of an unknown operation, or the answer to a webhook.
pub data Body : Type 0 where
  stream_frame : Frame → Body
  stream_end : Body
  variables : Option (Map Value) → Body
  refused : ErrorReply → Body
  unknown : Text → Body
  webhook : WebhookReply → Body

-- A message to the caller; the header names the replica, where it is set.
pub record Message : Type 0 where
  pub subject : Text
  pub instance_header : Option Text
  pub body : Body

-- `msgWithInstance`
abbrev pub msg_with_instance : Text → Text → Body → Message
msg_with_instance subject instance_id b = record {
  subject = subject;
  instance_header = some instance_id;
  body = b;
}

-- `m.Respond`
abbrev respond : Text → Body → Message
respond subject b = record { subject = subject; instance_header = none; body = b }

-- The messages to the caller, and those that a webhook handler published before.
pub record Dispatched : Type 0 where
  pub to_caller : List Message
  pub published : List Published

abbrev only_to_caller : List Message → Dispatched
only_to_caller ms = record { to_caller = ms; published = [] }

-- A deadline in milliseconds from now, if the platform sent one.
unfoldable call_context : ℤ → Option ℕ
call_context (pos zero) = none
call_context (pos (suc n)) = some (suc n)
call_context (negsuc n) = none

unfoldable pub call_ctx : Call → Ctx
unfolding call_context
call_ctx call = record {
  credential = call.credential;
  trace = call.trace;
  file_ticket = call.file_ticket;
  deadline = call_context call.deadline_ms;
}

-- `p.find`, and then the only operation whatever the name
unfoldable pub entry_for : Plugin → Text → Option OpEntry
entry_for p operation = elim (find p operation) [ some e ↦ some e | none ↦ only_entry p.ops ]

module _ (instance_id reply : Text) where
  -- The frames that `natsStreamSink` publishes.
  abbrev frame_messages : List Frame → List Message
  frame_messages fs = map (λ f. msg_with_instance reply instance_id (stream_frame f)) fs

  abbrev end_message : Message
  end_message = msg_with_instance reply instance_id stream_end

  failure_messages : Option GoError → List Message
  failure_messages none = []
  failure_messages (some e) =
      msg_with_instance reply instance_id (stream_frame (error_frame e)) ∷ []

  unfoldable pub stream_reply : Run → List Message
  unfolding failure_messages
  stream_reply r =
      frame_messages (frames_of r.emissions) ++ (failure_messages r.error ++ end_message ∷ [])

  unfoldable pub buffered_reply : Run → Message
  buffered_reply r = elim r.error [
    | some e ↦ msg_with_instance reply instance_id (refused (error_reply e))
    | none ↦
        msg_with_instance reply instance_id
          (variables (buffer_all empty_sink (frames_of r.emissions)).merged)
  ]

  unfoldable pub run_entry : OpEntry → Call → List Message
  unfolding stream_reply buffered_reply call_ctx
  run_entry e call =
      if e.op.stream
      then stream_reply (e.invoke (call_ctx call) call.input)
      else buffered_reply (e.invoke (call_ctx call) call.input) ∷ []

  answer_operation : Plugin → Call → List Message
  unfolding run_entry
  answer_operation p call = elim (entry_for p call.operation) [
    | none ↦ respond reply (unknown call.operation) ∷ []
    | some e ↦ run_entry e call
  ]

abbrev webhook_ctx : Plugin → Call → SourceCtx
webhook_ctx p call = record {
  token = p.cfg.token;
  valid = valid_from [] p.events;
  cred = call.credential;
  cred_id = call.credential_id;
  source_id = codes "webhook";
}

answer_webhook : Bus → (Text → Result Text WebhookRequest) → Text → Plugin → Call → Dispatched
answer_webhook bus decode reply p call =
    let (answer, published) =
      handle_webhook_frame (webhook_ctx p call) bus decode p.webhook_fn call.input in
    record { to_caller = respond reply (webhook answer) ∷ []; published = published }

unfoldable pub dispatch_nats :
    Bus → (Text → Result Text WebhookRequest) → Text → Plugin → Text → Call → Dispatched
unfolding answer_webhook answer_operation
dispatch_nats bus decode instance_id p reply call =
    if is_empty reply
    then only_to_caller []
    else if same call.operation (codes "__webhook__")
    then answer_webhook bus decode reply p call
    else only_to_caller (answer_operation instance_id reply p call)
