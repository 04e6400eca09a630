-- ===== src/Sokel/Webhook/Counts.antt =====
-- The count of events in `handleWebhookFrame` of sokel/webhook.go.
use sokel_plugin_sdk.Base.{
  ℕ, ◌+◌, Text, none, some, List, [], ◌∷◌, ◌++◌, Map, Result, ok, ◌≡◌, ◌≢◌, arith, ◌==◌,
  if◌then◌else◌,
}
use sokel_plugin_sdk.Sokel.Triggers.{
  Payload, Published, on_trigger, on_credential_update, Bus, SourceCtx, trigger, update_credential,
  Script, finish, ask_trigger, ask_update, report,
}
use sokel_plugin_sdk.Sokel.Webhook.{
  WebhookRequest, WebhookResponse, handled, counts, run_counted, handle_webhook_frame,
}

-- The triggers that reached the platform.
abbrev pub accepted : Bus → List Published → ℕ
accepted bus [] = 0
accepted bus (on_trigger m ∷ ms) =
    (elim (bus.publish (on_trigger m)) [ none ↦ 1 | some e ↦ 0 ]) + accepted bus ms
accepted bus (on_credential_update m ∷ ms) = accepted bus ms

accepted-append :
    (bus : Bus) (xs ys : List Published)
    → accepted bus (xs ++ ys) ≡ accepted bus xs + accepted bus ys
accepted-append bus [] ys = omega arith
accepted-append bus (on_trigger m ∷ xs) ys = omega (arith, accepted-append bus xs ys)
accepted-append bus (on_credential_update m ∷ xs) ys = accepted-append bus xs ys

module _ (c : SourceCtx) (bus : Bus) where
  trigger-accepted :
      (event event_id : Text) (content : Payload)
      → accepted bus (trigger c bus event event_id content).1
        ≡ counts (trigger c bus event event_id content).0
  unfolding trigger
  trigger-accepted event event_id content = ground arith

  update_credential-accepted :
      (patch : Map Text) → accepted bus (update_credential c bus patch).1 ≡ 0
  unfolding update_credential
  update_credential-accepted patch = ground arith

  run_counted-accepted :
      (n : ℕ) (s : Script WebhookResponse)
      → (run_counted c bus n s).events ≡ n + accepted bus (run_counted c bus n s).published
  unfolding run_counted
  run_counted-accepted n (finish r) = omega arith
  run_counted-accepted n (ask_trigger event event_id content next) =
      let sent = trigger c bus event event_id content in
      omega (
        arith,
        run_counted-accepted (n + counts sent.0) (next sent.0),
        trigger-accepted event event_id content,
        accepted-append bus sent.1 (run_counted c bus (n + counts sent.0) (next sent.0)).published,
      )
  run_counted-accepted n (ask_update patch next) =
      let sent = update_credential c bus patch in
      omega (
        arith,
        run_counted-accepted n (next sent.0),
        update_credential-accepted patch,
        accepted-append bus sent.1 (run_counted c bus n (next sent.0)).published,
      )
  run_counted-accepted n (report status msg next) = run_counted-accepted n next

  -- The reply to a webhook whose frame is decoded, with a handler registered, has a non-zero status, and counts exactly the triggers
  -- that the handler made and the connection accepted.
  pub handle_webhook_frame-accepted :
      (decode : Text → Result Text WebhookRequest) (fn : WebhookRequest → Script WebhookResponse)
      (input : Text) (req : WebhookRequest)
      → decode input ≡ ok req
      → (status : ℕ) × (headers : Map Text) × (body : Text) × ((handle_webhook_frame c bus decode
            (some fn)
            input).0
          ≡ handled status headers body
              (accepted bus (handle_webhook_frame c bus decode (some fn) input).1))
        × (status ≢ 0)
  unfolding handle_webhook_frame
  handle_webhook_frame-accepted decode fn input req parsed =
      let ran = run_counted c bus 0 (fn req) in
      rw (parsed, handle_webhook_frame)
        (
          if ran.response.status == 0 then 200 else ran.response.status,
          ran.response.headers,
          ran.response.body,
          ground (arith, run_counted-accepted 0 (fn req)),
          ground arith,
        )
