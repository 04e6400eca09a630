-- ===== src/Sokel/Webhook.antt =====
-- sokel/webhook.go: a webhook that the platform relays.
pub mod Counts
use sokel_plugin_sdk.Base.{
  ℕ, zero, ◌+◌, Text, codes, Bool, true, false, Option, none, some, List, [], ◌∷◌, ◌++◌, Map, leb,
  ◌==◌, ◌&&◌, Result, ok, err, length, if◌then◌else◌,
}
use sokel_plugin_sdk.Sokel.Errors.{GoError}
use sokel_plugin_sdk.Sokel.Triggers.{
  Published, Bus, SourceCtx, CtxError, trigger, update_credential, Script, finish, ask_trigger,
  ask_update, report,
}

pub record WebhookRequest : Type 0 where
  pub method : Text
  pub path : Text
  pub query : Text
  pub headers : Map Text
  pub body : Text

pub record WebhookResponse : Type 0 where
  pub status : ℕ
  pub headers : Map Text
  pub body : Text

unfoldable fold_case : ℕ → ℕ
fold_case c = if leb b'A' c && leb c b'Z' then c + 32 else c

-- The loop of `equalFold`, at equal lengths.
fold_bytes : Text → Text → Bool
unfolding fold_case
fold_bytes [] [] = true
fold_bytes [] (b ∷ t) = true
fold_bytes (a ∷ s) [] = true
fold_bytes (a ∷ s) (b ∷ t) = if fold_case a == fold_case b then fold_bytes s t else false

unfoldable pub equal_fold : Text → Text → Bool
unfolding fold_bytes
equal_fold a b = if length a == length b then fold_bytes a b else false

-- `Header`, over the headers in the order visited
unfoldable pub header : Map Text → Text → Text
header [] name = []
header ((k, v) ∷ hs) name = if equal_fold k name then v else header hs name

unfoldable text_reply : ℕ → Text → WebhookResponse
text_reply status body = record { status = status; headers = []; body = body }

-- The members of the reply frame: `status` is 0 beside an error.
pub data WebhookReply : Type 0 where
  failure : Text → WebhookReply
  handled : ℕ → Map Text → Text → ℕ → WebhookReply

-- The author's handler under `countingSourceCtx`; the context of a webhook has no board.
pub record Counted : Type 0 where
  pub response : WebhookResponse
  pub published : List Published
  pub events : ℕ

abbrev pub counts : Option CtxError → ℕ
counts none = 1
counts (some e) = 0

module _ (c : SourceCtx) (bus : Bus) where
  -- `n` is the count so far.
  unfoldable pub run_counted : ℕ → Script WebhookResponse → Counted
  run_counted n (finish r) = record { response = r; published = []; events = n }
  run_counted n (ask_trigger event event_id payload next) =
      let (answer, sent) = trigger c bus event event_id payload in
      let ran = run_counted (n + counts answer) (next answer) in
      record ran { published = sent ++ ran.published }
  run_counted n (ask_update patch next) =
      let (answer, sent) = update_credential c bus patch in
      let ran = run_counted n (next answer) in record ran { published = sent ++ ran.published }
  run_counted n (report status msg next) = run_counted n next

  answered : Counted → WebhookReply
  answered ran =
      handled (if ran.response.status == 0 then 200 else ran.response.status) ran.response.headers
        ran.response.body ran.events

  -- `decode` is the parse of the frame, with the body decoded; its error comes as a text.
  unfoldable pub handle_webhook_frame :
      (Text → Result Text WebhookRequest)
      → Option (WebhookRequest → Script WebhookResponse)
      → Text
      → WebhookReply × List Published
  unfolding answered
  handle_webhook_frame decode none input =
      (failure (codes "the plugin registered no webhook handler"), [])
  handle_webhook_frame decode (some fn) input = elim (decode input) [
    | err e ↦ (failure (codes "could not parse the webhook frame: " ++ e), [])
    | ok req ↦ let ran = run_counted 0 (fn req) in (answered ran, ran.published)
  ]
