-- ===== src/Sokel/Sources/Stable.antt =====
-- `reconcile` of sokel/event.go, repeated.
use mathlib.Core.Option
use sokel_plugin_sdk.Base.{
  Text, same_iff, same_refl, true, Option, none, some, List, [], ◌∷◌, Map, lookup, put-IsMap, IsMap,
  RangeOrder, ◌≡◌, refl, sym, ◌∙◌, arith, Option-cases, inl, inr,
}
use sokel_plugin_sdk.Sokel.Sources.{
  CredEntry, fields_sig, Instance, Supervisor, wanted_from, stays, stop_all, start_one, start_all,
  reconcile,
}
use sokel_plugin_sdk.Sokel.Sources.Reconcile.{
  assigned, lookup-wanted_from, wanted_from-IsMap, lookup-stop_all, stop_all-IsMap, retained,
  sig_at, sig_at-reconcile,
}

start_one-IsMap :
    (id : Text) (c : CredEntry) (t : Supervisor)
    → IsMap t.running
    → IsMap (start_one id c t).0.running
unfolding start_one
start_one-IsMap id c t h = elim (Option-cases (lookup id t.running)) [
  | inl free ↦ rw (free, start_one) (put-IsMap id _ t.running h)
  | inr (r, runs) ↦ rw (runs, start_one) h
]

start_all-IsMap :
    (want : Map CredEntry) (t : Supervisor) → IsMap t.running → IsMap (start_all want t).0.running
unfolding start_all
start_all-IsMap [] t h = h
start_all-IsMap ((id, c) ∷ want) t h =
    start_all-IsMap want (start_one id c t).0 (start_one-IsMap id c t h)

-- The running map stays a map.
pub reconcile-IsMap :
    (o : RangeOrder) (s : Supervisor) (desired : List CredEntry)
    → IsMap s.running
    → IsMap (reconcile o s desired).0.running
unfolding reconcile
reconcile-IsMap o s desired h = start_all-IsMap _ _ (
    stop_all-IsMap (wanted_from [] desired) (o.visit Instance s.running)
      (o.visit-IsMap Instance s.running h))

stop_all_silent :
    (want : Map CredEntry) (m : Map Instance)
    → IsMap m
    → ((k : Text) (r : Instance) → lookup k m ≡ some r → stays want k r ≡ true)
    → (stop_all want m).1 ≡ []
unfolding stop_all lookup
stop_all_silent want [] h stay = refl
stop_all_silent want ((id, r) ∷ m) (fresh, h) stay =
    let keep : stays want id r ≡ true = stay id r (ground (arith, same_refl id)) in
    rw keep (stop_all_silent want m h (λ j r' e. stay j r' (ground (arith, same_iff id j))))

start_all_silent :
    (want : Map CredEntry) (t : Supervisor)
    → IsMap want
    → ((k : Text) (c : CredEntry)
        → lookup k want ≡ some c
        → (r : Instance) × (lookup k t.running ≡ some r))
    → (start_all want t).1 ≡ []
unfolding start_all start_one lookup
start_all_silent [] t h runs = refl
start_all_silent ((id, c) ∷ want) t (fresh, h) runs =
    let (r, e) = runs id c (ground (arith, same_refl id)) in
    rw (e, start_one)
      (start_all_silent want t h (λ j c' e'. runs j c' (ground (arith, same_iff id j))))

stays_of_sig :
    (want : Map CredEntry) (k : Text) (r : Instance) (c : Option CredEntry)
    → lookup k want ≡ c
    → some r.sig ≡ Option.map fields_sig c
    → stays want k r ≡ true
unfolding stays
stays_of_sig want k r none e h = ground arith
stays_of_sig want k r (some c) e h = ground (arith, same_iff (fields_sig c) r.sig)

runs_of_sig :
    (found : Option Instance) (c : CredEntry) (given : Option CredEntry)
    → given ≡ some c
    → Option.map (λ (i : Instance). i.sig) found ≡ Option.map fields_sig given
    → (r : Instance) × (found ≡ some r)
runs_of_sig none c given e h = absurd (ground arith)
runs_of_sig (some r) c given e h = (r, refl)

kept_of_stays :
    (want : Map CredEntry) (k : Text) (r : Instance) (found : Option Instance)
    → found ≡ some r
    → stays want k r ≡ true
    → retained want k found ≡ some r
kept_of_stays want k r found e h = ground arith

module _ (o : RangeOrder) (s : Supervisor) (desired : List CredEntry) (h : IsMap s.running) where
  -- Where what runs is already what is assigned, nothing is stopped and nothing is started.
  reconcile_silent :
      ((k : Text) → sig_at k s.running ≡ Option.map fields_sig (assigned k desired))
      → (reconcile o s desired).1 ≡ []
  unfolding reconcile lookup
  reconcile_silent settled =
      let want = wanted_from [] desired in
      let want_ok : IsMap want = wanted_from-IsMap [] desired tt in
      let m = o.visit Instance s.running in
      let m_ok : IsMap m = o.visit-IsMap Instance s.running h in
      let at : (k : Text) → lookup k m ≡ lookup k s.running =
        λ k. o.lookup-visit Instance s.running k h in
      let stay : (k : Text) (r : Instance) → lookup k s.running ≡ some r → stays want k r ≡ true =
        λ k r e.
          stays_of_sig want k r (assigned k desired) (lookup-wanted_from k [] desired)
            (rw e at (settled k)) in
      let given : (k : Text) → lookup k (o.visit CredEntry want) ≡ assigned k desired =
        λ k. o.lookup-visit CredEntry want k want_ok ∙ lookup-wanted_from k [] desired in
      let none_stopped : (stop_all want m).1 ≡ [] =
        stop_all_silent want m m_ok (λ k r e. stay k r (sym (at k) ∙ e)) in
      let none_started =
        start_all_silent (o.visit CredEntry want) (record s { running = (stop_all want m).0 })
          (o.visit-IsMap CredEntry want want_ok)
          (λ k c e.
            let (r, runs) =
              runs_of_sig (lookup k s.running) c (assigned k desired) (sym (given k) ∙ e)
                (settled k) in
            (
              r,
              lookup-stop_all want k m m_ok
                  ∙ kept_of_stays want k r (lookup k m) (at k ∙ runs) (stay k r runs),
            )) in
      rw none_stopped none_started

-- Where one instance at most runs under an id, a second reconciliation with the same assignment
-- stops and starts nothing.
pub reconcile_twice :
    (o : RangeOrder) (s : Supervisor) (desired : List CredEntry)
    → IsMap s.running
    → (reconcile o (reconcile o s desired).0 desired).1 ≡ []
reconcile_twice o s desired h =
    reconcile_silent o (reconcile o s desired).0 desired (reconcile-IsMap o s desired h)
      (λ k. sig_at-reconcile o s desired h k)
