-- ===== src/Sokel/Dispatch/Replies.antt =====
-- The content of the answers of `dispatchNATS` in sokel/transport_nats.go.
use sokel_plugin_sdk.Base.{
  Text, codes, same_of_ne, Bool, false, Option, none, some, List, [], ◌∷◌, ◌++◌, Map, Result, All,
  In, lookup, is_empty_of_ne, ◌≡◌, ◌≢◌, refl, sym, Bool-cases, inl, inr, if◌then◌else◌, ap, ◌∙◌,
}
use sokel_plugin_sdk.Contract.Field.{Value}
use sokel_plugin_sdk.Sokel.Errors.{ErrorCode, GoError, ErrorReply, coded, error_reply}
use sokel_plugin_sdk.Sokel.Errors.Codes.{wrap_all, error_reply-wrap_all}
use sokel_plugin_sdk.Sokel.Frames.{
  error_frame_of, error_frame, frames_of, made, buffer_all, empty_sink,
}
use sokel_plugin_sdk.Sokel.Frames.Merge.{last_value, IsFrame, lookup-buffer_all}
use sokel_plugin_sdk.Sokel.Triggers.{Bus}
use sokel_plugin_sdk.Sokel.Webhook.{WebhookRequest}
use sokel_plugin_sdk.Sokel.Plugin.{Run, OpEntry, Plugin}
use sokel_plugin_sdk.Sokel.Dispatch.{
  Call, stream_end, stream_frame, variables, refused, Message, call_ctx, entry_for,
  failure_messages, stream_reply, buffered_reply, run_entry, answer_operation, dispatch_nats,
  msg_with_instance,
}

answer_of_found :
    (instance_id reply : Text) (p : Plugin) (call : Call) (e : OpEntry)
    → entry_for p call.operation ≡ some e
    → answer_operation instance_id reply p call ≡ run_entry instance_id reply e call
unfolding answer_operation
answer_of_found instance_id reply p call e found = rw (found, answer_operation)

variables_of_fine :
    (instance_id reply : Text) (r : Run)
    → r.error ≡ none
    → buffered_reply instance_id reply r
      ≡ msg_with_instance reply instance_id
          (variables (buffer_all empty_sink (frames_of r.emissions)).merged)
unfolding buffered_reply
variables_of_fine instance_id reply r fine = rw (fine, buffered_reply)

-- The message that reports an error: an error frame in a stream, else the reply itself.
abbrev pub error_message : Bool → Text → Text → ErrorReply → Message
error_message stream reply instance_id r =
    msg_with_instance reply instance_id
      (if stream then stream_frame (error_frame_of r) else refused r)

In-append_right : {A : Type 0} (a : A) (xs ys : List A) → In a ys → In a (xs ++ ys)
In-append_right a [] ys h = h
In-append_right a (x ∷ xs) ys h = inr (In-append_right a xs ys h)

stream_of_bad :
    (instance_id reply : Text) (r : Run) (g : GoError)
    → r.error ≡ some g
    → In
        (msg_with_instance reply instance_id (stream_frame (error_frame g)))
        (stream_reply instance_id reply r)
unfolding stream_reply
stream_of_bad instance_id reply r g bad =
    let here : In (msg_with_instance reply instance_id (stream_frame (error_frame g))) (
        failure_messages instance_id reply r.error
        ++ msg_with_instance reply instance_id stream_end ∷ []) =
      rw (bad, failure_messages) (inl refl) in
    In-append_right _ _ _ here

refusal_of_bad :
    (instance_id reply : Text) (r : Run) (g : GoError)
    → r.error ≡ some g
    → buffered_reply instance_id reply r
      ≡ msg_with_instance reply instance_id (refused (error_reply g))
unfolding buffered_reply
refusal_of_bad instance_id reply r g bad = rw (bad, buffered_reply)

error_message_of_bad :
    (instance_id reply : Text) (e : OpEntry) (call : Call) (g : GoError)
    → (e.invoke (call_ctx call) call.input).error ≡ some g
    → In
        (error_message e.op.stream reply instance_id (error_reply g))
        (run_entry instance_id reply e call)
unfolding run_entry error_frame
error_message_of_bad instance_id reply e call g bad = elim (Bool-cases e.op.stream) [
  | inl y ↦ rw y (stream_of_bad instance_id reply (e.invoke (call_ctx call) call.input) g bad)
  | inr n ↦
      rw n
        (inl (sym (refusal_of_bad instance_id reply (e.invoke (call_ctx call) call.input) g bad)))
]

module _ (bus : Bus) (decode : Text → Result Text WebhookRequest) (instance_id : Text) (p : Plugin)
    (reply : Text) (call : Call) (e : OpEntry) (given : reply ≢ [])
    (is_op : call.operation ≢ codes "__webhook__")
    (found : entry_for p call.operation ≡ some e) where
  pub dispatch_nats-run :
      (dispatch_nats bus decode instance_id p reply call).to_caller
      ≡ run_entry instance_id reply e call
  unfolding dispatch_nats
  dispatch_nats-run =
      rw (is_empty_of_ne reply given, same_of_ne call.operation (codes "__webhook__") is_op)
        (answer_of_found instance_id reply p call e found)

  -- A call, with a reply subject, of an operation that does not stream and does not fail, and is not
  -- the webhook, is answered by one message, which gives each
  -- variable the value that the handler emitted last for it.
  pub dispatch_nats-last_value :
      e.op.stream ≡ false
      → (e.invoke (call_ctx call) call.input).error ≡ none
      → All IsFrame (frames_of (e.invoke (call_ctx call) call.input).emissions)
      → (m : Option (Map Value)) × ((dispatch_nats bus decode instance_id p reply call).to_caller
          ≡ msg_with_instance reply instance_id (variables m) ∷ [])
        × ((k : Text)
            → lookup k (made m)
              ≡ last_value k (frames_of (e.invoke (call_ctx call) call.input).emissions))
  unfolding run_entry
  dispatch_nats-last_value plain fine maps = (
    (buffer_all empty_sink (frames_of (e.invoke (call_ctx call) call.input).emissions)).merged,
    dispatch_nats-run
        ∙ rw plain (
            ap (λ m. m ∷ [])
              (variables_of_fine instance_id reply (e.invoke (call_ctx call) call.input) fine)),
    λ k. lookup-buffer_all k (frames_of (e.invoke (call_ctx call) call.input).emissions) maps,
  )

  -- A coded error that the handler of an operation returns, however often it was wrapped, reaches the
  -- caller with its code, in a stream and outside one, where the call has a reply subject and is not
  -- the webhook.
  pub dispatch_nats-coded :
      (ts : List Text) (c : ErrorCode) (g : GoError)
      → (e.invoke (call_ctx call) call.input).error ≡ some (wrap_all ts (coded c g))
      → (r : ErrorReply) × In
          (error_message e.op.stream reply instance_id r)
          (dispatch_nats bus decode instance_id p reply call).to_caller
        × (r.code ≡ c)
  dispatch_nats-coded ts c g bad = (
    error_reply (wrap_all ts (coded c g)),
    rw dispatch_nats-run (error_message_of_bad instance_id reply e call _ bad),
    (error_reply-wrap_all ts c g).0,
  )
