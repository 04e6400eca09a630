-- ===== src/Sokel/Registration.antt =====
-- `registerBody` and `run` of sokel/transport_nats.go: the registration, its renewal by the
-- heartbeat, and what a replica does with the answers.
pub mod Payload
pub mod Instances
pub mod Assignment
pub mod InTurn
pub mod FirstTry
pub mod Restart
use sokel_plugin_sdk.Base.{
  has_prefix, trim_space, ℕ, zero, suc, ◌+◌, Text, codes, same, Bool, true, false, not, ◌||◌, ◌&&◌,
  Option, none, some, List, [], ◌∷◌, ◌++◌, Map, map, RangeOrder, Result, ok, err, is_empty,
  if◌then◌else◌,
}
use sokel_plugin_sdk.Contract.Field.{Field}
use sokel_plugin_sdk.Contract.Events.{Event}
use sokel_plugin_sdk.Contract.Schema.{Operation}
use sokel_plugin_sdk.Sokel.Errors.{GoError, message}
use sokel_plugin_sdk.Sokel.Board.{Board, SourceState, snapshot, set_state, remove_cred}
use sokel_plugin_sdk.Sokel.Triggers.{Bus, SourceCtx, Published, Ran, run_script, valid_from}
use sokel_plugin_sdk.Sokel.Plugin.{
  Plugin, OAuthSpec, AuthFlow, Source, contract, capabilities_contract,
}
use sokel_plugin_sdk.Sokel.Access.{wire_protocol}
use sokel_plugin_sdk.Sokel.Files.{RequestError, explain_timeout}
use sokel_plugin_sdk.Sokel.Sources.{
  CredEntry, Supervisor, Effect, new_source_supervisor, desired_source_creds, reconcile,
}
use sokel_plugin_sdk.Sokel.Watchdog.{Reason, Tick, Watch, watch_tick}

-- The answer, as `json.Unmarshal` leaves it.
pub record RegisterReply : Type 0 where
  pub accepted : Bool
  pub name : Text
  pub subject : Text
  pub notify_subject : Text
  pub error : Text
  pub code : Text
  pub credentials : List CredEntry
  pub credential : Map Text
  pub credential_id : Text

pub data RegisterError : Type 0 where
  no_answer : RequestError → RegisterError
  sdk_too_old : Text → RegisterError
  registration_refused : Text → RegisterError

pub record Registered : Type 0 where
  pub subject : Text
  pub name : Text
  pub notify_subject : Text
  pub creds : List CredEntry

-- The credential set of a reply, the single form of older platforms folded in.
unfoldable creds_of : RegisterReply → List CredEntry
creds_of r =
    if is_empty r.credentials && (not (is_empty r.credential_id) || not (is_empty r.credential))
    then record { id = r.credential_id; fields = r.credential } ∷ []
    else r.credentials

unfoldable read_reply : RegisterReply → Result RegisterError Registered
unfolding creds_of
read_reply r =
    if same r.code (codes "sdk_too_old")
    then err (sdk_too_old r.error)
    else if not r.accepted || is_empty r.subject
    then err (registration_refused r.error)
    else ok (record {
      subject = r.subject;
      name = r.name;
      notify_subject = r.notify_subject;
      creds = creds_of r;
    })

-- `register` from the request on; `violation` is the last one seen.
unfoldable register_answer :
    Text → Result RequestError RegisterReply → Result RegisterError Registered
unfolding read_reply
register_answer violation (err e) = err (no_answer (explain_timeout e violation))
register_answer violation (ok r) = read_reply r

-- The loop of the first registration: `attempt n` is what try `n` gives. `none` means that the fuel ran
-- out; the result comes with the number of waits of 8 seconds before it.
unfoldable pub first_registration :
    (ℕ → Result RegisterError Registered) → ℕ → ℕ → Option (ℕ × Result RegisterError Registered)
first_registration attempt zero n = none
first_registration attempt (suc fuel) n = elim (attempt n) [
  | ok r ↦ some (n, ok r)
  | err (sdk_too_old t) ↦ some (n, err (sdk_too_old t))
  | err (no_answer e) ↦ first_registration attempt fuel (suc n)
  | err (registration_refused t) ↦ first_registration attempt fuel (suc n)
]

-- Whether the watchdog may ask for another broker: the endpoint is not the address of one, and there
-- is no bundle in `SOKEL_ACCESS`.
unfoldable is_rediscoverable : Text → Text → Bool
is_rediscoverable endpoint bundle =
    not (has_prefix (trim_space endpoint) (codes "nats://")) && is_empty bundle

-- What happens to a replica. A registration and the reconciliation with its answer are two steps, since
-- two kinds of goroutines do both without a lock in between: the loop of the heartbeat, and the one
-- that the timer of the debouncer starts after a change of credentials, of which several can be
-- under way.
pub data Happening : Type 0 where
  -- A tick of the heartbeat, with the answer to its registration
  beat : Tick → Result RegisterError Registered → Happening
  -- The heartbeat reconciles with the answer that it got.
  beat_reconciles : Happening
  -- A goroutine of the debouncer gets its answer. This comes only where the first registration named
  -- a subject for the notifications.
  changed : Result RegisterError Registered → Happening
  -- One of these goroutines reconciles with its answer, by its place among those under way.
  changed_reconciles : ℕ → Happening
  -- The loop takes a signal to stop.
  signal : Happening

-- The message on `sokel.unregister`.
pub record Goodbye : Type 0 where
  pub token : Text
  pub instance_id : Text
  pub started_at : Text

-- Why the loop ends: the broker is lost for good, or a signal came, after the message.
pub data Exit : Type 0 where
  lost_broker : Reason → Exit
  went_offline : Goodbye → Exit

-- The supervisor, if the plugin has sources, the start of the outage, the subject of the notifications,
-- and the answers with which the heartbeat and the goroutines of the debouncer are yet to reconcile.
pub record Replica : Type 0 where
  pub supervisor : Option Supervisor
  pub since : Option ℕ
  pub notify_subject : Text
  pub beat_holds : Option Registered
  pub changes_hold : List Registered

-- `notifySubject` after an accepted registration.
noted : Text → Registered → Text
noted before r = if is_empty r.notify_subject then before else r.notify_subject

-- The replica after its first registration
first_replica : Option Supervisor → Registered → Replica
unfolding noted
first_replica sup r = record {
  supervisor = sup;
  since = none;
  notify_subject = noted [] r;
  beat_holds = none;
  changes_hold = [];
}

-- The member at a place, and the others.
unfoldable pub pick {ℓ} : {A : Type ℓ} → ℕ → List A → Option (A × List A)
pick n [] = none
pick zero (x ∷ xs) = some (x, xs)
pick (suc n) (x ∷ xs) = elim (pick n xs) [ none ↦ none | some (y, ys) ↦ some (y, x ∷ ys) ]

pub record Round : Type 0 where
  pub replica : Replica
  pub effects : List Effect
  pub exit : Option Exit

-- `bye` is the message that the process sends when it stops.
module _ (o : RangeOrder) (rediscoverable : Bool) (target : Text) (bye : Goodbye) where
  -- After the first registration: a plugin with sources starts them.
  unfoldable pub begin : Plugin → Registered → Round
  unfolding first_replica
  begin p r =
      let (sup, effects) = reconcile o new_source_supervisor (desired_source_creds r.creds) in
      if is_empty p.sources
      then record { replica = first_replica none r; effects = []; exit = none }
      else record { replica = first_replica (some sup) r; effects = effects; exit = none }

  idle : Replica → Round
  idle s = record { replica = s; effects = []; exit = none }

  -- `supervisor.reconcile` with an answer, under the lock of the supervisor
  unfoldable pub renew : Replica → Registered → Round
  unfolding idle
  renew s r = elim s.supervisor [
    | none ↦ idle s
    | some sup ↦
        let (sup', effects) = reconcile o sup (desired_source_creds r.creds) in
        record { replica = record s { supervisor = some sup' }; effects = effects; exit = none }
  ]

  unfoldable pub watched : Replica → Tick → Watch
  watched s t =
      if rediscoverable
      then watch_tick target s.since t
      else record { since = s.since; exit = none }

  -- The registration of the heartbeat
  unfoldable pub beat_registers : Replica → Result RegisterError Registered → Round
  unfolding noted idle
  beat_registers s (err e) = idle s
  beat_registers s (ok r) =
      idle (record s { notify_subject = noted s.notify_subject r; beat_holds = some r })

  -- A happening that cannot come in the state changes nothing: the loop takes no tick and no signal
  -- while it is yet to reconcile, and there is no reconciliation without an answer.
  unfoldable pub round : Replica → Happening → Round
  unfolding renew watched beat_registers noted idle pick
  round s (changed (err e)) = idle s
  round s (changed (ok r)) = idle (record s {
    notify_subject = noted s.notify_subject r;
    changes_hold = s.changes_hold ++ r ∷ [];
  })
  round s (changed_reconciles n) = elim (pick n s.changes_hold) [
    | none ↦ idle s
    | some (r, others) ↦ renew (record s { changes_hold = others }) r
  ]
  round s beat_reconciles = elim s.beat_holds [
    | none ↦ idle s
    | some r ↦ renew (record s { beat_holds = none }) r
  ]
  round s signal = elim s.beat_holds [
    | some r ↦ idle s
    | none ↦ record { replica = s; effects = []; exit = some (went_offline bye) }
  ]
  round s (beat t answer) = elim s.beat_holds [
    | some r ↦ idle s
    | none ↦
        let w = watched s t in
        elim w.exit [
          | some why ↦ record {
            replica = record s { since = w.since };
            effects = [];
            exit = some (lost_broker why);
          }
          | none ↦ beat_registers (record s { since = w.since }) answer
        ]
  ]

  -- The rounds up to an exit.
  unfoldable pub run_rounds : Replica → List Happening → Round
  unfolding round
  run_rounds s [] = record { replica = s; effects = []; exit = none }
  run_rounds s (h ∷ hs) =
      let r = round s h in
      let rest = run_rounds r.replica hs in
      elim r.exit [ some why ↦ r | none ↦ record rest { effects = r.effects ++ rest.effects } ]

-- The goroutine of one source writes its states on the board, at its start and at its end; other
-- goroutines write between the two.
unfoldable pub source_start : Text → Text → Text → Board → Board
source_start now source_id cred_id b = set_state now source_id cred_id (codes "running") [] b

-- `cancelled` tells whether the instance was stopped before the function returned.
unfoldable pub source_end : Bool → Option GoError → Text → Text → Text → Board → Board
source_end true result now source_id cred_id b = remove_cred cred_id b
source_end false none now source_id cred_id b =
    set_state now source_id cred_id (codes "exited") [] b
source_end false (some e) now source_id cred_id b =
    set_state now source_id cred_id (codes "error") (message e) b

-- The context of a source under a credential.
abbrev source_ctx : Plugin → CredEntry → Text → SourceCtx
source_ctx p c source_id = record {
  token = p.cfg.token;
  valid = valid_from [] p.events;
  cred = c.fields;
  cred_id = c.id;
  source_id = source_id;
}
