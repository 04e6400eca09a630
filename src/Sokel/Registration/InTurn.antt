-- ===== src/Sokel/Registration/InTurn.antt =====
-- The rounds of `run` in sokel/transport_nats.go where no two registrations overlap.
use sokel_plugin_sdk.Base.{
  Text, Bool, none, List, [], ◌∷◌, RangeOrder, Result, ok, err, ◌≡◌, ◌≢◌, refl, sym, ap, ◌∙◌, arith,
  Option-cases, inl, inr,
}
use sokel_plugin_sdk.Sokel.Sources.{CredEntry}
use sokel_plugin_sdk.Sokel.Plugin.{Plugin}
use sokel_plugin_sdk.Sokel.Watchdog.{Tick}
use sokel_plugin_sdk.Sokel.Registration.{
  RegisterError, Registered, Happening, beat, beat_reconciles, changed, changed_reconciles, Replica,
  Goodbye, pick, begin, renew, watched, beat_registers, round, run_rounds,
}
use sokel_plugin_sdk.Sokel.Registration.Instances.{Runs, renew-Runs, renew-holds, begin-Runs}

-- A registration by the heartbeat or after a change of credentials
pub data Renewal : Type 0 where
  by_beat : Tick → Result RegisterError Registered → Renewal
  by_change : Result RegisterError Registered → Renewal

abbrev first : Renewal → Happening
first (by_beat t a) = beat t a
first (by_change a) = changed a

abbrev second : Renewal → Happening
second (by_beat t a) = beat_reconciles
second (by_change a) = changed_reconciles 0

-- Each registration is followed by its own reconciliation.
abbrev pub in_turn : List Renewal → List Happening
in_turn [] = []
in_turn (x ∷ xs) = first x ∷ second x ∷ in_turn xs

abbrev answer_of : Renewal → Result RegisterError Registered
answer_of (by_beat t a) = a
answer_of (by_change a) = a

abbrev assigned_by : List CredEntry → Result RegisterError Registered → List CredEntry
assigned_by before (err e) = before
assigned_by before (ok r) = r.creds

-- The assignment of the last registration that succeeded, after the one before
abbrev pub last_assignment : List CredEntry → List Renewal → List CredEntry
last_assignment before [] = before
last_assignment before (x ∷ xs) = last_assignment (assigned_by before (answer_of x)) xs

-- The assigned instances run, and no answer is held.
abbrev IsQuiet : List CredEntry → Replica → Type 0
IsQuiet creds s = Runs creds s × ((s.beat_holds ≡ none) × (s.changes_hold ≡ []))

module _ (o : RangeOrder) (rediscoverable : Bool) (target : Text) (bye : Goodbye) where
  renew-stays : (s : Replica) (r : Registered) → (renew o rediscoverable target bye s r).exit ≡ none
  unfolding renew
  renew-stays s r = elim (Option-cases s.supervisor) [
    | inl e ↦ rw (renew, e) refl
    | inr (sup, e) ↦ rw (renew, e) refl
  ]

  abbrev Settles : List CredEntry → Replica → Happening → Type 0
  Settles creds s h =
      ((round o rediscoverable target bye s h).exit ≡ none)
      × IsQuiet creds (round o rediscoverable target bye s h).replica

  renew-IsQuiet :
      (s : Replica) (before : List CredEntry) (r : Registered)
      → IsQuiet before s
      → ((renew o rediscoverable target bye s r).exit ≡ none)
        × IsQuiet r.creds (renew o rediscoverable target bye s r).replica
  renew-IsQuiet s before r (runs, (b, c)) =
      let (same_beat, same_changes) = renew-holds o rediscoverable target bye s r in
      (
        renew-stays s r,
        (renew-Runs o rediscoverable target bye s before r runs, (same_beat ∙ b, same_changes ∙ c)),
      )

  change-Settles :
      (s : Replica) (before : List CredEntry) (a : Result RegisterError Registered)
      → IsQuiet before s
      → Settles
          (assigned_by before a)
          (round o rediscoverable target bye s (changed a)).replica
          (changed_reconciles 0)
  unfolding round pick
  change-Settles s before (err e) (runs, (b, c)) = rw (round, c) (refl, (runs, (b, c)))
  change-Settles s before (ok r) (runs, (b, c)) =
      rw (round, c) (renew-IsQuiet _ before r (runs, (b, refl)))

  registered-Settles :
      (s : Replica) (before : List CredEntry) (a : Result RegisterError Registered)
      → IsQuiet before s
      → Settles
          (assigned_by before a)
          (beat_registers o rediscoverable target bye s a).replica
          beat_reconciles
  unfolding round beat_registers
  registered-Settles s before (err e) (runs, (b, c)) = rw (round, b) (refl, (runs, (b, c)))
  registered-Settles s before (ok r) (runs, (b, c)) = renew-IsQuiet _ before r (runs, (refl, c))

  beat-Settles :
      (s : Replica) (before : List CredEntry) (t : Tick) (a : Result RegisterError Registered)
      → IsQuiet before s
      → (round o rediscoverable target bye s (beat t a)).exit ≡ none
      → Settles
          (assigned_by before a)
          (round o rediscoverable target bye s (beat t a)).replica
          beat_reconciles
  unfolding round
  beat-Settles s before t a (runs, (b, c)) stays =
      elim (Option-cases (watched o rediscoverable target bye s t).exit) [
        | inr (why, leave) ↦ absurd (ground arith)
        | inl stay ↦
            let s' : Replica = record s {
              since = (watched o rediscoverable target bye s t).since;
            } in
            let registers : round o rediscoverable target bye s (beat t a)
                ≡ beat_registers o rediscoverable target bye s' a =
              rw (round, b, stay)
                (ap
                  (λ h. beat_registers o rediscoverable target bye (record s' { beat_holds = h }) a)
                  b) in
            rw registers (registered-Settles s' before a (runs, (b, c)))
      ]

  turn-Settles :
      (s : Replica) (before : List CredEntry) (x : Renewal)
      → IsQuiet before s
      → (round o rediscoverable target bye s (first x)).exit ≡ none
      → Settles
          (assigned_by before (answer_of x))
          (round o rediscoverable target bye s (first x)).replica
          (second x)
  turn-Settles s before (by_beat t a) quiet stays = beat-Settles s before t a quiet stays
  turn-Settles s before (by_change a) quiet stays = change-Settles s before a quiet

  -- Where the first round does not exit, the rest of the run decides.
  run_on :
      (s : Replica) (h : Happening) (hs : List Happening)
      → (round o rediscoverable target bye s h).exit ≡ none
      → ((run_rounds o rediscoverable target bye s (h ∷ hs)).exit
          ≡ (run_rounds o rediscoverable target bye
              (round o rediscoverable target bye s h).replica
              hs).exit)
        × ((run_rounds o rediscoverable target bye s (h ∷ hs)).replica
            ≡ (run_rounds o rediscoverable target bye
                (round o rediscoverable target bye s h).replica
                hs).replica)
  unfolding run_rounds
  run_on s h hs stay = (rw (run_rounds, stay) refl, rw (run_rounds, stay) refl)

  -- Where the whole run does not exit, the first round does not.
  stays_first :
      (s : Replica) (h : Happening) (hs : List Happening)
      → (run_rounds o rediscoverable target bye s (h ∷ hs)).exit ≡ none
      → (round o rediscoverable target bye s h).exit ≡ none
  unfolding run_rounds
  stays_first s h hs stays = elim (Option-cases (round o rediscoverable target bye s h).exit) [
    | inl stay ↦ stay
    | inr (why, leave) ↦ absurd (ground arith)
  ]

  run_in_turn-IsQuiet :
      (s : Replica) (before : List CredEntry) (xs : List Renewal)
      → IsQuiet before s
      → (run_rounds o rediscoverable target bye s (in_turn xs)).exit ≡ none
      → IsQuiet
          (last_assignment before xs)
          (run_rounds o rediscoverable target bye s (in_turn xs)).replica
  unfolding run_rounds
  run_in_turn-IsQuiet s before [] quiet stays = quiet
  run_in_turn-IsQuiet s before (x ∷ xs) quiet stays =
      let hs = in_turn xs in
      let stay = stays_first s (first x) (second x ∷ hs) stays in
      let s' = (round o rediscoverable target bye s (first x)).replica in
      let (stay', quiet') = turn-Settles s before x quiet stay in
      let (exit, replica) = run_on s (first x) (second x ∷ hs) stay in
      let (exit', replica') = run_on s' (second x) hs stay' in
      rw (replica, replica')
        (run_in_turn-IsQuiet (round o rediscoverable target bye s' (second x)).replica
          (assigned_by before (answer_of x)) xs quiet' (sym (exit ∙ exit') ∙ stays))

  -- A plugin with sources, from its first registration on, where no two registrations overlap, so that
  -- each is followed by its own reconciliation: as long as the replica goes on, the running instances
  -- are those of the last registration that succeeded, whatever came before, each with the signature
  -- of the fields assigned there, or a single bare one where it assigned no credential.
  pub run_rounds-in_turn :
      (p : Plugin) (r : Registered) (xs : List Renewal)
      → p.sources ≢ []
      → (run_rounds o rediscoverable target bye
          (begin o rediscoverable target bye p r).replica
          (in_turn xs)).exit
        ≡ none
      → Runs
          (last_assignment r.creds xs)
          (run_rounds o rediscoverable target bye
            (begin o rediscoverable target bye p r).replica
            (in_turn xs)).replica
  run_rounds-in_turn p r xs given stays =
      (run_in_turn-IsQuiet (begin o rediscoverable target bye p r).replica r.creds xs
        (begin-Runs o rediscoverable target bye p r given) stays).0
