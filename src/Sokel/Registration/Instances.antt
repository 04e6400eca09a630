-- ===== src/Sokel/Registration/Instances.antt =====
-- The instances of the sources before and after a reconciliation of `run` in
-- sokel/transport_nats.go.
use mathlib.Core.Option
use sokel_plugin_sdk.Base.{
  Text, Bool, none, some, List, [], IsMap, RangeOrder, ◌≡◌, ◌≢◌, refl, Option-cases, is_empty_of_ne,
  inl, inr,
}
use sokel_plugin_sdk.Sokel.Sources.{
  CredEntry, Supervisor, new_source_supervisor, fields_sig, desired_source_creds, reconcile,
}
use sokel_plugin_sdk.Sokel.Sources.Reconcile.{assigned, sig_at, sig_at-reconcile}
use sokel_plugin_sdk.Sokel.Sources.Stable.{reconcile-IsMap}
use sokel_plugin_sdk.Sokel.Plugin.{Plugin}
use sokel_plugin_sdk.Sokel.Registration.{Registered, Replica, Goodbye, begin, renew}

-- The supervisor runs one instance at most under an id, and exactly the assigned ones.
abbrev pub Runs : List CredEntry → Replica → Type 0
Runs creds s =
    (sup : Supervisor) × (s.supervisor ≡ some sup)
    × IsMap sup.running
    × ((k : Text)
        → sig_at k sup.running ≡ Option.map fields_sig (assigned k (desired_source_creds creds)))

module _ (o : RangeOrder) (rediscoverable : Bool) (target : Text) (bye : Goodbye) where
  pub renew-Runs :
      (s : Replica) (before : List CredEntry) (r : Registered)
      → Runs before s
      → Runs r.creds (renew o rediscoverable target bye s r).replica
  unfolding renew
  renew-Runs s before r (sup, runs, one_each, _) =
      rw (runs, renew)
        (
          (reconcile o sup (desired_source_creds r.creds)).0,
          refl,
          reconcile-IsMap o sup (desired_source_creds r.creds) one_each,
          sig_at-reconcile o sup (desired_source_creds r.creds) one_each,
        )

  -- A reconciliation leaves the answers that are held.
  pub renew-holds :
      (s : Replica) (r : Registered)
      → ((renew o rediscoverable target bye s r).replica.beat_holds ≡ s.beat_holds)
        × ((renew o rediscoverable target bye s r).replica.changes_hold ≡ s.changes_hold)
  unfolding renew
  renew-holds s r = elim (Option-cases s.supervisor) [
    | inl e ↦ (rw (renew, e) refl, rw (renew, e) refl)
    | inr (sup, e) ↦ (rw (renew, e) refl, rw (renew, e) refl)
  ]

  pub begin-Runs :
      (p : Plugin) (r : Registered)
      → p.sources ≢ []
      → Runs r.creds (begin o rediscoverable target bye p r).replica
        × (((begin o rediscoverable target bye p r).replica.beat_holds ≡ none)
            × ((begin o rediscoverable target bye p r).replica.changes_hold ≡ []))
  unfolding begin
  begin-Runs p r given =
      rw (is_empty_of_ne p.sources given, begin)
        (
          (
            (reconcile o new_source_supervisor (desired_source_creds r.creds)).0,
            refl,
            reconcile-IsMap o new_source_supervisor (desired_source_creds r.creds) tt,
            sig_at-reconcile o new_source_supervisor (desired_source_creds r.creds) tt,
          ),
          (refl, refl),
        )
