-- ===== src/Sokel/Watchdog.antt =====
-- sokel/discover.go and the heartbeat of sokel/transport_nats.go: when a replica that has lost its
-- broker exits, so that its supervisor restarts it.
pub mod Exits
use sokel_plugin_sdk.Base.{
  ℕ, ◌-◌, Text, same, Bool, true, false, ◌||◌, Option, none, some, List, [], ◌∷◌, Result, ok, err,
  ltb, is_empty, if◌then◌else◌,
}
use sokel_plugin_sdk.Sokel.Access.{Access, AccessError, no_transport}

-- The states of the connection that the decision tells apart.
pub data Status : Type 0 where
  connected : Status
  closed : Status
  other : Status

pub data Reason : Type 0 where
  closed_for_good : Reason
  reports_no_transport : Text → ℕ → Reason
  broker_moved : Text → Text → ℕ → Reason

after_discovery : Result AccessError Access → Text → ℕ → Option Reason
after_discovery (err (no_transport detail)) current down = some (reports_no_transport detail down)
after_discovery (err _) current down = none
after_discovery (ok fresh) current down =
    if is_empty fresh.url || same fresh.url current
    then none
    else some (broker_moved current fresh.url down)

-- `none` is "keep waiting"; the times are in seconds.
unfoldable pub rediscover_outcome :
    Status → ℕ → ℕ → Result AccessError Access → Text → Option Reason
unfolding after_discovery
rediscover_outcome closed disconnected min_down discovered current = some closed_for_good
rediscover_outcome connected disconnected min_down discovered current =
    if ltb disconnected min_down then none else after_discovery discovered current disconnected
rediscover_outcome other disconnected min_down discovered current =
    if ltb disconnected min_down then none else after_discovery discovered current disconnected

-- A tick of the heartbeat: the time, the status, and what discovery would answer now.
pub record Tick : Type 0 where
  pub now : ℕ
  pub status : Status
  pub discovered : Result AccessError Access

-- `disconnectedSince`, and the reason to exit; a zero time is `none`.
pub record Watch : Type 0 where
  pub since : Option ℕ
  pub exit : Option Reason

abbrev since_or : Option ℕ → ℕ → ℕ
since_or none now = now
since_or (some t) now = t

judge : Status → Text → Tick → ℕ → Watch
judge st target t since = record {
  since = some since;
  exit = rediscover_outcome st (t.now - since) 60 t.discovered target;
}

watch_at : Status → Text → Option ℕ → Tick → Watch
unfolding judge
watch_at connected target since t = record { since = none; exit = none }
watch_at closed target since t = judge closed target t (since_or since t.now)
watch_at other target since t = judge other target t (since_or since t.now)

-- The part of one round of the loop that watches the connection; the endpoint went through
-- discovery.
unfoldable pub watch_tick : Text → Option ℕ → Tick → Watch
unfolding watch_at
watch_tick target since t = watch_at t.status target since t

reason_or : Option Reason → Option Reason → Option Reason
reason_or (some r) rest = some r
reason_or none rest = rest

-- The rounds up to the exit.
unfoldable pub watch_all : Text → Option ℕ → List Tick → Option Reason
unfolding reason_or
watch_all target since [] = none
watch_all target since (t ∷ ts) =
    let w = watch_tick target since t in
    let rest = watch_all target w.since ts in reason_or w.exit rest
