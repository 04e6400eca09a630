-- ===== src/Sokel/Dispatch/Answers.antt =====
-- The messages with which `dispatchNATS` of sokel/transport_nats.go answers a call.
use sokel_plugin_sdk.Base.{Text, Bool, true, false, List, [], ◌∷◌, ◌≡◌}
use sokel_plugin_sdk.Sokel.Plugin.{Plugin}
use sokel_plugin_sdk.Sokel.Dispatch.{Dispatched, Body, stream_frame, Message}

-- A message that ends an exchange: all but the frames of a stream.
abbrev is_final : Body → Bool
is_final (stream_frame f) = false
is_final _ = true

-- Frames to the caller, and then one last message, which ends the exchange.
abbrev IsAnswer : Text → List Message → Type 0
IsAnswer reply [] = ⊥
IsAnswer reply (m ∷ []) = (m.subject ≡ reply) × (is_final m.body ≡ true)
IsAnswer reply (m ∷ n ∷ ms) =
    (m.subject ≡ reply) × (is_final m.body ≡ false) × IsAnswer reply (n ∷ ms)

-- The one message of a call that does not stream.
abbrev IsReply : Text → Message → Type 0
IsReply reply m = (m.subject ≡ reply) × (is_final m.body ≡ true)

-- Without a reply subject nothing is sent; with one there is an answer on it.
abbrev pub IsServed : Text → Dispatched → Type 0
IsServed [] d = (d.to_caller ≡ []) × (d.published ≡ [])
IsServed (c ∷ s) d = IsAnswer (c ∷ s) d.to_caller
