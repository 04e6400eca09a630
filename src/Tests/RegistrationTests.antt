-- ===== src/Tests/RegistrationTests.antt =====
-- Registrations and the rounds of a replica.
use sokel_plugin_sdk.Sokel.Identity.{Start, stable_instance_id}
use sokel_plugin_sdk.Sokel.Identity.Restarts.{IsSolid, stable_instance_id-restart}
use sokel_plugin_sdk.Base.{
  lookup, put, same, Text, is_empty, is_space, trim_space, ℕ, zero, suc, ◌<◌, codes, true, none,
  some, List, [], ◌∷◌, All, In, Option, in_order, Result, ok, err, ◌≡◌, ◌≢◌, inl, refl, arith,
}
use sokel_plugin_sdk.Sokel.Board.{SourceState, snapshot}
use sokel_plugin_sdk.Sokel.Access.{calling}
use sokel_plugin_sdk.Sokel.Triggers.{finish}
use sokel_plugin_sdk.Sokel.Sources.{
  CredEntry, Supervisor, fields_sig, reconcile, start_all, start_one, stop_all, stays, wanted_from,
  desired_source_creds,
}
use sokel_plugin_sdk.Sokel.Sources.Reconcile.{sig_at}
use sokel_plugin_sdk.Sokel.Watchdog.{Tick, connected, watch_tick}
use sokel_plugin_sdk.Sokel.Plugin.{Plugin, new_plugin, Source}
use sokel_plugin_sdk.Sokel.Files.{timeout}
use sokel_plugin_sdk.Sokel.Registration.{
  RegisterError, no_answer, registration_refused, Registered, first_registration, Happening,
  Goodbye, beat, beat_reconciles, changed, changed_reconciles, begin, renew, watched,
  beat_registers, pick, Replica, run_rounds, source_start, source_end,
}
use sokel_plugin_sdk.Sokel.Registration.FirstTry.{IsTransient, first_registration_lem}
use sokel_plugin_sdk.Sokel.Registration.Instances.{Runs}
use sokel_plugin_sdk.Sokel.Registration.Assignment.{answers, run_rounds-begin}
use sokel_plugin_sdk.Sokel.Registration.InTurn.{
  Renewal, by_beat, by_change, in_turn, last_assignment, run_rounds-in_turn,
}
use sokel_plugin_sdk.Sokel.Registration.Restart.{source_end-erases}

abbrev assigned_bot : CredEntry
assigned_bot = record { id = codes "b1"; fields = (codes "token", codes "x") ∷ [] }

abbrev refreshed_bot : CredEntry
refreshed_bot = record { id = codes "b1"; fields = (codes "token", codes "y") ∷ [] }

abbrev registered_with : List CredEntry → Registered
registered_with cs = record {
  subject = codes "s";
  name = codes "demo";
  notify_subject = codes "n";
  creds = cs;
}

-- The broker is not up yet, then the platform refuses, then it accepts.
abbrev tries : ℕ → Result RegisterError Registered
tries zero = err (no_answer timeout)
tries (suc n) = elim n [
  | zero ↦ err (registration_refused (codes "starting"))
  | suc _ ↦ ok (registered_with (assigned_bot ∷ []))
]

IsTransient-tries : (i : ℕ) → i < 2 → IsTransient (tries i)
IsTransient-tries zero h = (no_answer timeout, refl, λ t e. cc)
IsTransient-tries (suc zero) h = (registration_refused (codes "starting"), refl, λ t e. cc)
IsTransient-tries (suc (suc n)) h = absurd (omega arith)

first_registration_lem_example : first_registration tries 9 0 ≡ some (2, tries 2)
first_registration_lem_example =
    first_registration_lem tries 2 9 (omega arith) IsTransient-tries
      (inl (registered_with (assigned_bot ∷ []), refl))

abbrev farewell : Goodbye
farewell = record { token = codes "skp"; instance_id = codes "r1"; started_at = codes "t0" }

abbrev poll_source : Source
poll_source = record { id = codes "poll"; label = codes "Poll"; body = finish none }

abbrev bot_plugin : Plugin
bot_plugin =
    record (new_plugin (record { endpoint = []; token = codes "skp"; name = codes "bot" })) {
      sources = poll_source ∷ [];
    }

abbrev calm : Tick
calm = record { now = 20; status = connected; discovered = err (calling [] []) }

abbrev sig_of : Text → Option Supervisor → Option Text
sig_of k none = none
sig_of k (some sup) = sig_at k sup.running

abbrev fresh : Replica
fresh =
    (begin in_order true (codes "nats://n1") farewell bot_plugin
      (registered_with (assigned_bot ∷ []))).replica

-- A goroutine of the debouncer gets an answer, the heartbeat gets a newer one and reconciles, and only
-- then the goroutine does.
abbrev overlapping : List Happening
overlapping =
    changed (ok (registered_with (assigned_bot ∷ [])))
    ∷ beat calm (ok (registered_with (refreshed_bot ∷ [])))
    ∷ beat_reconciles
    ∷ changed_reconciles 0
    ∷ []

overlapping_goes_on :
    (run_rounds in_order true (codes "nats://n1") farewell fresh overlapping).exit ≡ none
unfolding run_rounds begin watch_tick watched beat_registers renew pick
overlapping_goes_on = refl

run_rounds-begin_example :
    (creds : List CredEntry) × (In creds ((assigned_bot ∷ []) ∷ answers overlapping)
      × Runs creds
          (run_rounds in_order true (codes "nats://n1") farewell fresh overlapping).replica)
run_rounds-begin_example =
    run_rounds-begin in_order true (codes "nats://n1") farewell bot_plugin
      (registered_with (assigned_bot ∷ [])) overlapping (λ e. cc) overlapping_goes_on

-- The instance of the older answer runs in the end.
overtaken :
    sig_of
      (codes "b1")
      (run_rounds in_order true (codes "nats://n1") farewell fresh overlapping).replica.supervisor
    ≡ some (fields_sig assigned_bot)
unfolding run_rounds begin watch_tick watched beat_registers renew pick lookup put same reconcile
    start_all start_one stop_all stays wanted_from desired_source_creds fields_sig
overtaken = refl

-- A failed renewal, then a refreshed session, then a beat that confirms it.
abbrev renewals : List Renewal
renewals =
    by_beat calm (err (no_answer timeout))
    ∷ by_change (ok (registered_with (refreshed_bot ∷ [])))
    ∷ by_beat calm (ok (registered_with (refreshed_bot ∷ [])))
    ∷ []

goes_on :
    (run_rounds in_order true (codes "nats://n1") farewell fresh (in_turn renewals)).exit ≡ none
unfolding run_rounds begin watch_tick watched beat_registers renew pick
goes_on = refl

run_rounds-in_turn_example :
    Runs
      (last_assignment (assigned_bot ∷ []) renewals)
      (run_rounds in_order true (codes "nats://n1") farewell fresh (in_turn renewals)).replica
run_rounds-in_turn_example =
    run_rounds-in_turn in_order true (codes "nats://n1") farewell bot_plugin
      (registered_with (assigned_bot ∷ [])) renewals (λ e. cc) goes_on

source_end-erases_example :
    All
      (λ (st : SourceState). st.credential_id ≢ codes "b1")
      (snapshot (
        source_end true none
          (codes "t2")
          (codes "poll")
          (codes "b1")
          (source_start (codes "t1") (codes "poll") (codes "b1") [])))
source_end-erases_example =
    source_end-erases none (codes "poll") (codes "poll") (codes "b1") (codes "t1") (codes "t2") []

-- Two starts in one directory, on hosts that were renamed in between.
abbrev first_start : Start
first_start = record {
  instance_id = [];
  host = codes "nas";
  random = 18 ∷ 52 ∷ 86 ∷ 120 ∷ [];
  pid = codes "7";
  writable = true;
}

abbrev second_start : Start
second_start = record {
  instance_id = [];
  host = codes "box";
  random = 1 ∷ 2 ∷ 3 ∷ 4 ∷ [];
  pid = codes "9";
  writable = true;
}

abbrev print_of : Text → Text
print_of token = codes "ab12cd34"

unset_id : is_empty (trim_space []) ≡ true
unfolding trim_space
unset_id = refl

IsSolid-host : IsSolid (codes "nas")
unfolding is_space
IsSolid-host = (refl, (refl, (refl, tt)))

stable_instance_id-restart_example :
    (stable_instance_id print_of second_start
      (codes "skp")
      (stable_instance_id print_of first_start (codes "skp") []).1).0
    ≡ (stable_instance_id print_of first_start (codes "skp") []).0
stable_instance_id-restart_example =
    stable_instance_id-restart print_of first_start second_start (codes "skp") [] unset_id unset_id
      IsSolid-host refl
