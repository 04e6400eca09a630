-- ===== src/Sokel/Watchdog/Exits.antt =====
-- The exits of the watchdog: `rediscoverOutcome` of sokel/discover.go, and the heartbeat.
use sokel_plugin_sdk.Base.{
  ℕ, ◌+◌, ◌-◌, ◌≤◌, Text, same_iff, Option, none, some, List, [], ◌∷◌, ◌++◌, Result, ok, err, ltb,
  ◌≡◌, ◌≢◌, ◌↔◌, ◌⊎◌, inl, inr, refl, arith, All, Option-cases, Bool-cases, ne_none,
}
use sokel_plugin_sdk.Sokel.Access.{Access, AccessError, no_transport}
use sokel_plugin_sdk.Sokel.Watchdog.{
  Status, connected, closed, other, after_discovery, rediscover_outcome, Tick, since_or, watch_at,
  watch_tick, watch_all,
}

-- The outcomes of discovery that make waiting useless: the platform says that it has no transport,
-- or it names another broker.
abbrev pub Moved : Result AccessError Access → Text → Type 0
Moved discovered current =
    ((detail : Text) × (discovered ≡ err (no_transport detail)))
    ⊎ ((fresh : Access) × (discovered ≡ ok fresh) × (fresh.url ≢ []) × (fresh.url ≢ current))

after_discovery_iff :
    (discovered : Result AccessError Access) (current : Text) (down : ℕ)
    → (after_discovery discovered current down ≢ none) ↔ Moved discovered current
unfolding after_discovery
after_discovery_iff (err (no_transport detail)) current down = (λ h. inl (detail, refl), λ h e. cc)
after_discovery_iff (err _) current down = (λ h. absurd (h refl), λ m e. ground arith)
after_discovery_iff (ok fresh) current down = (
  λ h. inr (fresh, refl, ground arith, ground (arith, same_iff fresh.url current)),
  λ m e. ground (arith, same_iff fresh.url current),
)

-- The replica exits exactly when the connection is closed for good, or when it has been down for
-- the minimum time and discovery answers that there is no transport, or another broker.
rediscover_outcome_iff :
    (st : Status) (down min_down : ℕ) (discovered : Result AccessError Access) (current : Text)
    → (rediscover_outcome st down min_down discovered current ≢ none)
      ↔ ((st ≡ closed) ⊎ ((min_down ≤ down) × Moved discovered current))
unfolding rediscover_outcome
rediscover_outcome_iff closed down min_down discovered current = (λ h. inl refl, λ h e. cc)
rediscover_outcome_iff _ down min_down discovered current =
    let iff = after_discovery_iff discovered current down in
    elim (Bool-cases (ltb down min_down)) [
      | inl short ↦ rw short (λ h. absurd (h refl), λ h. ground arith)
      | inr long ↦ rw long (λ h. inr (ground arith, iff.0 h), λ h. ground arith)
    ]

-- One round, at a status that is not up, with a start of the outage.
lost_tick :
    (st : Status) (target : Text) (t0 : ℕ) (t : Tick)
    → st ≢ connected
    → watch_at st target (some t0) t
      ≡ record { since = some t0; exit = rediscover_outcome st (t.now - t0) 60 t.discovered target }
unfolding watch_at
lost_tick connected target t0 t down = absurd (down refl)
lost_tick closed target t0 t down = refl
lost_tick other target t0 t down = refl

-- One round that gives no reason to exit.
calm_tick :
    (st : Status) (target : Text) (since : Option ℕ) (t : Tick)
    → st ≢ closed
    → (Moved t.discovered target → ⊥)
    → (watch_at st target since t).exit ≡ none
unfolding watch_at
calm_tick connected target since t up still = refl
calm_tick closed target since t up still = absurd (up refl)
calm_tick other target since t up still =
    elim (Option-cases
      (rediscover_outcome other (t.now - since_or since t.now) 60 t.discovered target)) [
        | inl stay ↦ stay
        | inr (r, leave) ↦
            elim ((rediscover_outcome_iff other _ 60 t.discovered target).0 (ne_none leave)) [
              | inl shut ↦ absurd (ground arith)
              | inr (_, moved) ↦ absurd (still moved)
            ]
      ]

-- While the connection is never closed for good, and discovery never names another broker nor says
-- that there is none, the watchdog does not exit, however long the outage.
watch_all_calm :
    (target : Text) (since : Option ℕ) (ts : List Tick)
    → All (λ t. (t.status ≢ closed) × (Moved t.discovered target → ⊥)) ts
    → watch_all target since ts ≡ none
unfolding watch_all watch_tick
watch_all_calm target since [] h = refl
watch_all_calm target since (t ∷ ts) ((up, still), h) =
    rw (calm_tick t.status target since t up still)
      (watch_all_calm target (watch_tick target since t).since ts h)

-- An outage that began at `t0`, and in which no round finds the connection up, ends in an exit at the
-- latest at a round a minute or more after `t0` at which discovery names another broker, or says
-- that there is none.
pub watch_all-Moved :
    (target : Text) (t0 : ℕ) (ts : List Tick) (t : Tick)
    → All (λ x. x.status ≢ connected) ts
    → t.status ≢ connected
    → t0 + 60 ≤ t.now
    → Moved t.discovered target
    → watch_all target (some t0) (ts ++ t ∷ []) ≢ none
unfolding watch_all watch_tick
watch_all-Moved target t0 [] t h down late moved =
    let leaves =
      (rediscover_outcome_iff t.status (t.now - t0) 60 t.discovered target).1
        (inr (omega arith, moved)) in
    elim (Option-cases (rediscover_outcome t.status (t.now - t0) 60 t.discovered target)) [
      | inl stay ↦ absurd (leaves stay)
      | inr (r, leave) ↦ rw (lost_tick t.status target t0 t down, leave) (λ e. cc)
    ]
watch_all-Moved target t0 (x ∷ ts) t (p, h) down late moved =
    elim (Option-cases (rediscover_outcome x.status (x.now - t0) 60 x.discovered target)) [
      | inl stay ↦
          rw (lost_tick x.status target t0 x p, stay)
            (watch_all-Moved target t0 ts t h down late moved)
      | inr (r, leave) ↦ rw (lost_tick x.status target t0 x p, leave) (λ e. cc)
    ]
