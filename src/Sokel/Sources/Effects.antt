-- ===== src/Sokel/Sources/Effects.antt =====
-- The instances that `reconcile` of sokel/event.go stops and starts.
use mathlib.Core.Option
use sokel_plugin_sdk.Base.{
  ◌≢◌, All-map, ◌≤◌, Text, same_iff, same_refl, false, Option, none, some, List, [], ◌∷◌, Map,
  lookup, lookup-put, IsMap, RangeOrder, ◌≡◌, refl, ◌∙◌, sym, arith, Bool-cases, Option-cases, inl,
  inr, All, All-append,
}
use sokel_plugin_sdk.Sokel.Sources.{
  CredEntry, fields_sig, Instance, Supervisor, Effect, started, stopped, wanted_from, stays,
  stop_all, start_one, start_all, reconcile,
}
use sokel_plugin_sdk.Sokel.Sources.Reconcile.{
  assigned, sig_at, lookup-wanted_from, wanted_from-IsMap, lookup-stop_all, retained,
}

-- An effect that the loops may have, by their own tests.
abbrev IsDue : Supervisor → List CredEntry → Effect → Type 0
IsDue s desired (stopped n) =
    (k : Text) × (r : Instance) × (lookup k s.running ≡ some r)
    × (r.handle ≡ n)
    × (stays (wanted_from [] desired) k r ≡ false)
IsDue s desired (started n c) =
    (k : Text) × (assigned k desired ≡ some c)
    × (s.next ≤ n)
    × ((r : Instance) → lookup k s.running ≡ some r → stays (wanted_from [] desired) k r ≡ false)

-- The first loop, over any entries that belong to the running map.
stop_all-IsDue :
    (s : Supervisor) (desired : List CredEntry) (m : Map Instance)
    → IsMap m
    → ((k : Text) (r : Instance) → lookup k m ≡ some r → lookup k s.running ≡ some r)
    → All (IsDue s desired) (stop_all (wanted_from [] desired) m).1
unfolding stop_all lookup
stop_all-IsDue s desired [] h sub = tt
stop_all-IsDue s desired ((id, r) ∷ m) (fresh, h) sub =
    let rest : All (IsDue s desired) (stop_all (wanted_from [] desired) m).1 =
      stop_all-IsDue s desired m h (λ j r' e. sub j r' (ground (arith, same_iff id j))) in
    elim (Bool-cases (stays (wanted_from [] desired) id r)) [
      | inl keep ↦ rw keep rest
      | inr drop ↦ rw drop ((id, r, sub id r (ground (arith, same_refl id)), refl, drop), rest)
    ]

-- What `s` ran and `t` does not run had to stop.
abbrev Gone : Supervisor → List CredEntry → Supervisor → Type 0
Gone s desired t =
    (k : Text) (r : Instance)
    → lookup k s.running ≡ some r
    → lookup k t.running ≡ none
    → stays (wanted_from [] desired) k r ≡ false

start_one-lookup-none :
    (id k : Text) (c : CredEntry) (t : Supervisor)
    → lookup k (start_one id c t).0.running ≡ none
    → lookup k t.running ≡ none
unfolding start_one
start_one-lookup-none id k c t h = ground (
  arith,
  same_iff id k,
  lookup-put id k (record { handle = t.next; sig = fields_sig c }) t.running,
)

start_one-IsDue :
    (s : Supervisor) (desired : List CredEntry) (id : Text) (c : CredEntry) (t : Supervisor)
    → assigned id desired ≡ some c
    → s.next ≤ t.next
    → Gone s desired t
    → All (IsDue s desired) (start_one id c t).1
unfolding start_one
start_one-IsDue s desired id c t given later gone = elim (Option-cases (lookup id t.running)) [
  | inl free ↦ rw (free, start_one) ((id, given, later, λ r e. gone id r e free), tt)
  | inr (r, runs) ↦ rw (runs, start_one) tt
]

start_one-next : (id : Text) (c : CredEntry) (t : Supervisor) → t.next ≤ (start_one id c t).0.next
unfolding start_one
start_one-next id c t = ground arith

start_all-IsDue :
    (s : Supervisor) (desired : List CredEntry) (want : Map CredEntry) (t : Supervisor)
    → IsMap want
    → ((k : Text) (c : CredEntry) → lookup k want ≡ some c → assigned k desired ≡ some c)
    → s.next ≤ t.next
    → Gone s desired t
    → All (IsDue s desired) (start_all want t).1
unfolding start_all lookup
start_all-IsDue s desired [] t h sub later gone = tt
start_all-IsDue s desired ((id, c) ∷ want) t (fresh, h) sub later gone =
    All-append (IsDue s desired) _ _
      (start_one-IsDue s desired id c t (sub id c (ground (arith, same_refl id))) later gone)
      (start_all-IsDue s desired want (start_one id c t).0 h
        (λ k c' e. sub k c' (ground (arith, same_iff id k))) (omega (arith, start_one-next id c t))
        (λ k r e free. gone k r e (start_one-lookup-none id k c t free)))

kept-Gone :
    (want : Map CredEntry) (k : Text) (r : Instance) (found : Option Instance)
    → found ≡ some r
    → retained want k found ≡ none
    → stays want k r ≡ false
kept-Gone want k r found e h = ground arith

-- An effect that the reconciliation of `s` with `desired` may have: it stops an instance that ran
-- and whose credential is not assigned with the same signature, and it starts, under a new handle,
-- a credential that is assigned and that did not run with its present signature.
abbrev pub IsWarranted : Supervisor → List CredEntry → Effect → Type 0
IsWarranted s desired (stopped n) =
    (k : Text) × (r : Instance) × (lookup k s.running ≡ some r)
    × (r.handle ≡ n)
    × (Option.map fields_sig (assigned k desired) ≢ some r.sig)
IsWarranted s desired (started n c) =
    (k : Text) × (assigned k desired ≡ some c)
    × (s.next ≤ n)
    × (sig_at k s.running ≢ some (fields_sig c))

unassigned_of_stays :
    (want : Map CredEntry) (k : Text) (r : Instance) (c : Option CredEntry)
    → lookup k want ≡ c
    → stays want k r ≡ false
    → Option.map fields_sig c ≢ some r.sig
unfolding stays
unassigned_of_stays want k r none e drop h = cc
unassigned_of_stays want k r (some c) e drop h = ground (arith, same_iff (fields_sig c) r.sig)

not_run_of_stays :
    (want : Map CredEntry) (k : Text) (c : CredEntry) (found : Option Instance)
    → lookup k want ≡ some c
    → ((r : Instance) → found ≡ some r → stays want k r ≡ false)
    → Option.map (λ (i : Instance). i.sig) found ≢ some (fields_sig c)
unfolding stays
not_run_of_stays want k c none e drop h = cc
not_run_of_stays want k c (some r) e drop h =
    ground (arith, drop r refl, same_iff (fields_sig c) r.sig)

IsDue-IsWarranted :
    (s : Supervisor) (desired : List CredEntry) (x : Effect)
    → IsDue s desired x
    → IsWarranted s desired x
unfolding lookup
IsDue-IsWarranted s desired (stopped n) (k, r, runs, h, drop) = (
  k,
  r,
  runs,
  h,
  unassigned_of_stays (wanted_from [] desired) k r _ (lookup-wanted_from k [] desired) drop,
)
IsDue-IsWarranted s desired (started n c) (k, given, later, drop) = (
  k,
  given,
  later,
  not_run_of_stays (wanted_from [] desired) k c (lookup k s.running)
      (lookup-wanted_from k [] desired ∙ given) drop,
)

module _ (o : RangeOrder) (s : Supervisor) (desired : List CredEntry) (h : IsMap s.running) where
  reconcile-IsDue : All (IsDue s desired) (reconcile o s desired).1
  unfolding reconcile lookup
  reconcile-IsDue =
      let want = wanted_from [] desired in
      let want_ok : IsMap want = wanted_from-IsMap [] desired tt in
      let m = o.visit Instance s.running in
      let m_ok : IsMap m = o.visit-IsMap Instance s.running h in
      let at : (k : Text) → lookup k m ≡ lookup k s.running =
        λ k. o.lookup-visit Instance s.running k h in
      All-append (IsDue s desired) _ _ (stop_all-IsDue s desired m m_ok (λ k r e. sym (at k) ∙ e)) (
        start_all-IsDue s desired (o.visit CredEntry want)
          (record s { running = (stop_all want m).0 }) (o.visit-IsMap CredEntry want want_ok)
          (λ k c e.
            sym (lookup-wanted_from k [] desired)
            ∙ (sym (o.lookup-visit CredEntry want k want_ok) ∙ e))
          (omega arith)
          (λ k r e free.
            kept-Gone want k r (lookup k m) (at k ∙ e)
              (sym (lookup-stop_all want k m m_ok) ∙ free)))

  -- Where one instance at most runs under an id, a reconciliation stops only instances that ran and whose credential is no longer assigned with
  -- their signature, and starts, under a handle not used before, only assigned credentials that
  -- did not run with their signature.
  pub reconcile-IsWarranted : All (IsWarranted s desired) (reconcile o s desired).1
  reconcile-IsWarranted =
      All-map (IsDue s desired) (IsWarranted s desired) _ (IsDue-IsWarranted s desired)
        reconcile-IsDue
