-- ===== src/Tests/AuthTests.antt =====
-- Auth flows.
use sokel_plugin_sdk.Base.{Text, codes, same, Option, none, some, [], Result, ok, ◌≡◌, refl}
use sokel_plugin_sdk.Contract.Field.{str}
use sokel_plugin_sdk.Sokel.Errors.{GoError}
use sokel_plugin_sdk.Sokel.Plugin.{Plugin, new_plugin}
use sokel_plugin_sdk.Sokel.AuthFlows.{
  AuthMeta, AuthState, AuthHandlers, Derived, PollOut, poll_body,
}

abbrev confirmed_answer : Result GoError (Option AuthState)
confirmed_answer =
    ok (some (record { status = codes "confirmed"; session = some (str (codes "s")) }))

abbrev confirmed_out : PollOut
confirmed_out = record { status = codes "confirmed"; session = some (str (codes "s")) }

polled : poll_body confirmed_answer ≡ ok confirmed_out
unfolding poll_body same
polled = refl

abbrev qr_meta : AuthMeta
qr_meta = record { kind = codes "qr"; steps = []; provider = []; scopes = [] }

-- A flow with a start and a poll.
abbrev qr_handlers : AuthHandlers
qr_handlers = record {
  on_start = some (λ ctx. ok none);
  on_poll = some (λ ctx auth_id. confirmed_answer);
  on_submit = none;
}

abbrev plain_bindings : Derived
plain_bindings = record {
  bind_start = λ t. ok tt;
  bind_poll = λ t. ok t;
  bind_submit = λ t. ok (t, t);
  fields = λ id. (none, none);
}

abbrev bare_plugin : Plugin
bare_plugin = new_plugin (record { endpoint = []; token = []; name = codes "bot" })

abbrev told : Text → Text → Text
told op v = v
