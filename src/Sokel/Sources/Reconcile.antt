-- ===== src/Sokel/Sources/Reconcile.antt =====
-- The instances that run after `reconcile` of sokel/event.go.
use mathlib.Core.Option
use sokel_plugin_sdk.Base.{
  Text, same, same_iff, Option, none, some, List, [], ◌∷◌, Map, lookup, put, lookup-put, put-IsMap,
  IsMap, RangeOrder, ◌≡◌, refl, ◌∙◌, arith, if◌then◌else◌,
}
use sokel_plugin_sdk.Sokel.Sources.{
  CredEntry, fields_sig, Instance, Supervisor, wanted_from, stays, stop_all, start_one, start_all,
  reconcile,
}

-- The entry of the assigned set that counts for an id: the last one.
abbrev assigned_from : Option CredEntry → Text → List CredEntry → Option CredEntry
assigned_from last k [] = last
assigned_from last k (c ∷ cs) = assigned_from (if same c.id k then some c else last) k cs

abbrev pub assigned : Text → List CredEntry → Option CredEntry
assigned k cs = assigned_from none k cs

-- The signature that runs under an id.
abbrev pub sig_at : Text → Map Instance → Option Text
sig_at k m = Option.map (λ r. r.sig) (lookup k m)

pub lookup-wanted_from :
    (k : Text) (want : Map CredEntry) (cs : List CredEntry)
    → lookup k (wanted_from want cs) ≡ assigned_from (lookup k want) k cs
unfolding wanted_from
lookup-wanted_from k want [] = refl
lookup-wanted_from k want (c ∷ cs) =
    rw (lookup-wanted_from k (put c.id c want) cs, lookup-put c.id k c want) refl

pub wanted_from-IsMap :
    (want : Map CredEntry) (cs : List CredEntry) → IsMap want → IsMap (wanted_from want cs)
unfolding wanted_from
wanted_from-IsMap want [] h = h
wanted_from-IsMap want (c ∷ cs) h = wanted_from-IsMap (put c.id c want) cs (put-IsMap c.id c want h)

-- What the first loop leaves of an entry.
abbrev pub retained : Map CredEntry → Text → Option Instance → Option Instance
retained want k none = none
retained want k (some r) = if stays want k r then some r else none

pub lookup-stop_all :
    (want : Map CredEntry) (k : Text) (m : Map Instance)
    → IsMap m
    → lookup k (stop_all want m).0 ≡ retained want k (lookup k m)
unfolding stop_all lookup
lookup-stop_all want k [] h = refl
lookup-stop_all want k ((id, r) ∷ m) (fresh, h) =
    ground (arith, same_iff id k, lookup-stop_all want k m h)

pub stop_all-IsMap : (want : Map CredEntry) (m : Map Instance) → IsMap m → IsMap (stop_all want m).0
unfolding stop_all
stop_all-IsMap want [] h = tt
stop_all-IsMap want ((id, r) ∷ m) (fresh, h) =
    ground (arith, lookup-stop_all want id m h, stop_all-IsMap want m h)

-- What the second loop makes of an entry that does not run yet.
abbrev sig_or : Option CredEntry → Option Text → Option Text
sig_or c (some sig) = some sig
sig_or none none = none
sig_or (some c) none = some (fields_sig c)

lookup-start_one :
    (id : Text) (c : CredEntry) (s : Supervisor) (k : Text)
    → sig_at k (start_one id c s).0.running
      ≡ (if same id k then sig_or (some c) (sig_at k s.running) else sig_at k s.running)
unfolding start_one
lookup-start_one id c s k = ground (
  arith,
  same_iff id k,
  lookup-put id k (record { handle = s.next; sig = fields_sig c }) s.running,
)

sig_or-none : (o : Option Text) → o ≡ sig_or none o
sig_or-none none = refl
sig_or-none (some sig) = refl

sig_at-start_all :
    (want : Map CredEntry) (s : Supervisor) (k : Text)
    → IsMap want
    → sig_at k (start_all want s).0.running ≡ sig_or (lookup k want) (sig_at k s.running)
unfolding start_all lookup
sig_at-start_all [] s k h = sig_or-none (sig_at k s.running)
sig_at-start_all ((id, c) ∷ want) s k (fresh, h) = ground (
  arith,
  same_iff id k,
  lookup-start_one id c s k,
  sig_at-start_all want (start_one id c s).0 k h,
)

-- An instance that runs is left as it is by the second loop.
lookup-start_all :
    (want : Map CredEntry) (s : Supervisor) (k : Text) (r : Instance)
    → lookup k s.running ≡ some r
    → lookup k (start_all want s).0.running ≡ some r
unfolding start_all start_one
lookup-start_all [] s k r e = e
lookup-start_all ((id, c) ∷ want) s k r e = ground (
  arith,
  same_iff id k,
  lookup-put id k (record { handle = s.next; sig = fields_sig c }) s.running,
  lookup-start_all want (start_one id c s).0 k r,
)

-- The first loop, then the second, at one id.
settled :
    (want : Map CredEntry) (k : Text) (r : Option Instance) (c : Option CredEntry)
    → lookup k want ≡ c
    → sig_or c (Option.map (λ (i : Instance). i.sig) (retained want k r)) ≡ Option.map fields_sig c
unfolding stays
settled want k none none e = refl
settled want k none (some c) e = refl
settled want k (some r) none e = ground arith
settled want k (some r) (some c) e = ground (arith, same_iff (fields_sig c) r.sig)

stays_put :
    (want : Map CredEntry) (k : Text) (r : Instance) (c : CredEntry) (found : Option Instance)
    → found ≡ some r
    → lookup k want ≡ some c
    → r.sig ≡ fields_sig c
    → retained want k found ≡ some r
unfolding stays
stays_put want k r c found e given unchanged = ground (arith, same_iff (fields_sig c) r.sig)

module _ (o : RangeOrder) (s : Supervisor) (desired : List CredEntry) (h : IsMap s.running) where
  abbrev want_map : Map CredEntry
  want_map = wanted_from [] desired

  abbrev kept_map : Map Instance
  kept_map = (stop_all want_map (o.visit Instance s.running)).0

  lookup-want_map : (k : Text) → lookup k (o.visit CredEntry want_map) ≡ assigned k desired
  unfolding lookup
  lookup-want_map k =
      o.lookup-visit CredEntry want_map k (wanted_from-IsMap [] desired tt)
      ∙ lookup-wanted_from k [] desired

  lookup-kept_map : (k : Text) → lookup k kept_map ≡ retained want_map k (lookup k s.running)
  lookup-kept_map k =
      rw (← o.lookup-visit Instance s.running k h)
        (lookup-stop_all want_map k _ (o.visit-IsMap Instance s.running h))

  -- Whatever ran before, with one instance at most under an id: after a reconciliation the instance
  -- under an id has the signature of the fields assigned to the id, the last ones if there are
  -- several, and there is none where nothing is assigned.
  pub sig_at-reconcile :
      (k : Text)
      → sig_at k (reconcile o s desired).0.running ≡ Option.map fields_sig (assigned k desired)
  unfolding reconcile lookup
  sig_at-reconcile k =
      rw
        (
          sig_at-start_all (o.visit CredEntry want_map) (record s { running = kept_map }) k
              (o.visit-IsMap CredEntry want_map (wanted_from-IsMap [] desired tt)),
          lookup-want_map k,
          lookup-kept_map k,
        )
        (settled want_map k (lookup k s.running) (assigned k desired)
          (lookup-wanted_from k [] desired))

  -- Where one instance at most runs under an id, an instance whose credential is still assigned with
  -- the same signature is not restarted.
  pub lookup-reconcile_kept :
      (k : Text) (r : Instance) (c : CredEntry)
      → lookup k s.running ≡ some r
      → assigned k desired ≡ some c
      → r.sig ≡ fields_sig c
      → lookup k (reconcile o s desired).0.running ≡ some r
  unfolding reconcile lookup
  lookup-reconcile_kept k r c runs given unchanged =
      lookup-start_all (o.visit CredEntry want_map) (record s { running = kept_map }) k r
        (lookup-kept_map k
          ∙ stays_put want_map k r c _ runs (lookup-wanted_from k [] desired ∙ given) unchanged)
