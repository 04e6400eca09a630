-- ===== src/Sokel/Registration/Assignment.antt =====
-- The instances of the sources over the rounds of `run` in sokel/transport_nats.go.
use sokel_plugin_sdk.Base.{
  Text, Bool, Option, none, some, List, [], ◌∷◌, In, All, ◌++◌, ◌⊎◌, ℕ, zero, suc, RangeOrder,
  Result, ok, err, ◌≡◌, ◌≢◌, refl, arith, Option-cases, inl, inr,
}
use sokel_plugin_sdk.Sokel.Sources.{CredEntry}
use sokel_plugin_sdk.Sokel.Registration.Instances.{Runs, renew-Runs, renew-holds, begin-Runs}
use sokel_plugin_sdk.Sokel.Plugin.{Plugin}
use sokel_plugin_sdk.Sokel.Watchdog.{Tick}
use sokel_plugin_sdk.Sokel.Registration.{
  RegisterError, Registered, Happening, beat, beat_reconciles, changed, changed_reconciles, signal,
  Replica, Goodbye, pick, begin, renew, watched, beat_registers, round, run_rounds,
}

-- The assignments in the answers to the registrations
abbrev pub answers : List Happening → List (List CredEntry)
answers [] = []
answers (beat t (ok r) ∷ hs) = r.creds ∷ answers hs
answers (beat t (err e) ∷ hs) = answers hs
answers (beat_reconciles ∷ hs) = answers hs
answers (changed (ok r) ∷ hs) = r.creds ∷ answers hs
answers (changed (err e) ∷ hs) = answers hs
answers (changed_reconciles n ∷ hs) = answers hs
answers (signal ∷ hs) = answers hs

abbrev IsKnown : List (List CredEntry) → Registered → Type 0
IsKnown known r = In r.creds known

abbrev HoldsKnown : List (List CredEntry) → Option Registered → Type 0
HoldsKnown known none = Unit
HoldsKnown known (some r) = IsKnown known r

-- What runs and what is held comes from one of the known assignments each.
abbrev IsFaithful : List (List CredEntry) → Replica → Type 0
IsFaithful known s =
    ((creds : List CredEntry) × (In creds known × Runs creds s))
    × (HoldsKnown known s.beat_holds × All (IsKnown known) s.changes_hold)

pick-All :
    (known : List (List CredEntry)) (n : ℕ) (rs : List Registered)
    → All (IsKnown known) rs
    → (pick n rs ≡ none)
      ⊎ ((r : Registered) × ((others : List Registered) × ((pick n rs ≡ some (r, others))
              × (IsKnown known r × All (IsKnown known) others))))
unfolding pick
pick-All known n [] h = inl refl
pick-All known zero (r ∷ rs) (here, h) = inr (r, (rs, (refl, (here, h))))
pick-All known (suc n) (r ∷ rs) (here, h) = elim (pick-All known n rs h) [
  | inl e ↦ inl (rw (e, pick) refl)
  | inr (q, (others, (e, (known_q, all)))) ↦
      inr (q, (r ∷ others, (rw (e, pick) refl, (known_q, (here, all)))))
]

All-last :
    (known : List (List CredEntry)) (rs : List Registered) (r : Registered)
    → All (IsKnown known) rs
    → IsKnown known r
    → All (IsKnown known) (rs ++ r ∷ [])
All-last known [] r h new = (new, tt)
All-last known (x ∷ rs) r (here, h) new = (here, All-last known rs r h new)

each_listed :
    (cs known : List (List CredEntry))
    → ((c : List CredEntry) → In c cs → In c known)
    → All (λ c. In c known) cs
each_listed [] known h = tt
each_listed (c ∷ cs) known h = (h c (inl refl), each_listed cs known (λ d m. h d (inr m)))

split_answers :
    (known : List (List CredEntry)) (h : Happening) (hs : List Happening)
    → All (λ c. In c known) (answers (h ∷ hs))
    → All (λ c. In c known) (answers (h ∷ [])) × All (λ c. In c known) (answers hs)
split_answers known (beat t (ok r)) hs (here, later) = ((here, tt), later)
split_answers known (beat t (err e)) hs all = (tt, all)
split_answers known beat_reconciles hs all = (tt, all)
split_answers known (changed (ok r)) hs (here, later) = ((here, tt), later)
split_answers known (changed (err e)) hs all = (tt, all)
split_answers known (changed_reconciles n) hs all = (tt, all)
split_answers known signal hs all = (tt, all)

module _ (o : RangeOrder) (rediscoverable : Bool) (target : Text) (bye : Goodbye) where
  renew-IsFaithful :
      (known : List (List CredEntry)) (s : Replica) (before : List CredEntry) (r : Registered)
      → Runs before s
      → IsKnown known r
      → HoldsKnown known s.beat_holds
      → All (IsKnown known) s.changes_hold
      → IsFaithful known (renew o rediscoverable target bye s r).replica
  renew-IsFaithful known s before r runs is beat_known changes_known =
      let (same_beat, same_changes) = renew-holds o rediscoverable target bye s r in
      (
        (r.creds, (is, renew-Runs o rediscoverable target bye s before r runs)),
        (rw same_beat beat_known, rw same_changes changes_known),
      )

  -- The answers that a happening brings are known.
  abbrev Brings : List (List CredEntry) → Happening → Type 0
  Brings known h = All (λ c. In c known) (answers (h ∷ []))

  beat_registers-IsFaithful :
      (known : List (List CredEntry)) (s : Replica) (t : Tick)
      (answer : Result RegisterError Registered)
      → IsFaithful known s
      → Brings known (beat t answer)
      → IsFaithful known (beat_registers o rediscoverable target bye s answer).replica
  unfolding beat_registers
  beat_registers-IsFaithful known s t (err e) f new = f
  beat_registers-IsFaithful known s t (ok r) (now, (b, cs)) (new, _) = (now, (new, cs))

  round-IsFaithful :
      (known : List (List CredEntry)) (s : Replica) (h : Happening)
      → IsFaithful known s
      → Brings known h
      → (round o rediscoverable target bye s h).exit ≡ none
      → IsFaithful known (round o rediscoverable target bye s h).replica
  unfolding round
  round-IsFaithful known s (changed (err e)) f new stays = f
  round-IsFaithful known s (changed (ok r)) ((creds, (is, runs)), (b, cs)) (new, _) stays =
      ((creds, (is, runs)), (b, All-last known s.changes_hold r cs new))
  round-IsFaithful known s (changed_reconciles n) ((creds, (is, runs)), (b, cs)) new stays =
      elim (pick-All known n s.changes_hold cs) [
        | inl e ↦ rw (round, e) ((creds, (is, runs)), (b, cs))
        | inr (r, (others, (e, (known_r, all)))) ↦
            rw (round, e)
              (renew-IsFaithful known (record s { changes_hold = others }) creds r runs known_r b
                all)
      ]
  round-IsFaithful known s beat_reconciles ((creds, (is, runs)), (b, cs)) new stays =
      elim (Option-cases s.beat_holds) [
        | inl e ↦ rw (round, e) ((creds, (is, runs)), (b, cs))
        | inr (r, e) ↦
            rw (round, e)
              (renew-IsFaithful known (record s { beat_holds = none }) creds r runs (rw e at b) tt
                cs)
      ]
  round-IsFaithful known s signal f new stays = elim (Option-cases s.beat_holds) [
    | inl e ↦ rw (round, e) f
    | inr (r, e) ↦ rw (round, e) f
  ]
  round-IsFaithful known s (beat t answer) f new stays = elim (Option-cases s.beat_holds) [
    | inr (r, e) ↦ rw (round, e) f
    | inl free ↦ elim (Option-cases (watched o rediscoverable target bye s t).exit) [
      | inr (why, leave) ↦ absurd (ground arith)
      | inl stay ↦
          rw (round, free, stay)
            (beat_registers-IsFaithful known
              (record s { since = (watched o rediscoverable target bye s t).since }) t answer f new)
    ]
  ]

  run_rounds-IsFaithful :
      (known : List (List CredEntry)) (s : Replica) (hs : List Happening)
      → IsFaithful known s
      → All (λ c. In c known) (answers hs)
      → (run_rounds o rediscoverable target bye s hs).exit ≡ none
      → IsFaithful known (run_rounds o rediscoverable target bye s hs).replica
  unfolding run_rounds
  run_rounds-IsFaithful known s [] f new stays = f
  run_rounds-IsFaithful known s (h ∷ hs) f new stays =
      let (here, later) = split_answers known h hs new in
      elim (Option-cases (round o rediscoverable target bye s h).exit) [
        | inr (why, leave) ↦ absurd (ground arith)
        | inl stay ↦
            rw (stay, run_rounds)
              (run_rounds-IsFaithful known (round o rediscoverable target bye s h).replica hs
                (round-IsFaithful known s h f here stay) later (rw (stay, run_rounds) at stays))
      ]

  -- A plugin with sources, from its first registration on: however the registrations of the heartbeat
  -- and of changed credentials overlap, and in whatever order the goroutines then reconcile, as long
  -- as the replica goes on, the running instances are exactly those that the answer to one of its
  -- registrations assigns, never a mix, each with the signature of the fields assigned there, or a
  -- single bare one where that answer assigned no credential.
  pub run_rounds-begin :
      (p : Plugin) (r : Registered) (hs : List Happening)
      → p.sources ≢ []
      → (run_rounds o rediscoverable target bye
          (begin o rediscoverable target bye p r).replica
          hs).exit
        ≡ none
      → (creds : List CredEntry) × (In creds (r.creds ∷ answers hs)
          × Runs creds
              (run_rounds o rediscoverable target bye
                (begin o rediscoverable target bye p r).replica
                hs).replica)
  run_rounds-begin p r hs given stays =
      let (runs, (free, none_held)) = begin-Runs o rediscoverable target bye p r given in
      let known = r.creds ∷ answers hs in
      let faithful : IsFaithful known (begin o rediscoverable target bye p r).replica =
        ((r.creds, (inl refl, runs)), (rw free tt, rw none_held tt)) in
      (run_rounds-IsFaithful known (begin o rediscoverable target bye p r).replica hs faithful
        (each_listed (answers hs) known (λ c m. inr m)) stays).0
