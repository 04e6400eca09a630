-- ===== src/Tests/SourceTests.antt =====
-- The supervisor, the board and the contexts of the sources.
use mathlib.Core.Option
use sokel_plugin_sdk.Base.{
  codes, same, true, some, [], ◌∷◌, lookup, put, IsMap, All, in_order, ◌≡◌, refl, arith,
}
use sokel_plugin_sdk.Sokel.Sources.{
  CredEntry, Supervisor, started, stopped, fields_sig, text_lt, reconcile, stop_all, stays,
  wanted_from, start_all, start_one,
}
use sokel_plugin_sdk.Sokel.Sources.Reconcile.{assigned, sig_at, sig_at-reconcile}
use sokel_plugin_sdk.Sokel.Sources.Effects.{IsWarranted, reconcile-IsWarranted}
use sokel_plugin_sdk.Sokel.Sources.Stable.{reconcile_twice}
use sokel_plugin_sdk.Sokel.Sources.Signature.{fields_sig-injective}
use sokel_plugin_sdk.Sokel.Sources.Collision.{two_fields, folded, reconcile-folded}
use sokel_plugin_sdk.Sokel.Board.{Board}
use sokel_plugin_sdk.Sokel.Board.Entries.{entry}

sources : Unit {0}
unfolding reconcile fields_sig lookup same text_lt stop_all stays wanted_from put start_all
    start_one
sources = tt

abbrev old_bot : CredEntry
old_bot = record { id = codes "b1"; fields = (codes "token", codes "x") ∷ [] }

abbrev twin : CredEntry
twin = record { id = codes "b9"; fields = (codes "token", codes "x") ∷ [] }

abbrev new_bot : CredEntry
new_bot = record { id = codes "b1"; fields = (codes "token", codes "y") ∷ [] }

abbrev other_bot : CredEntry
other_bot = record { id = codes "b2"; fields = [] }

-- `b1` runs with the old token, and `b3`, which is assigned no more.
abbrev before : Supervisor
before = record {
  running =
      (codes "b1", record { handle = 0; sig = codes "token=x\n" })
      ∷ (codes "b3", record { handle = 1; sig = [] })
      ∷ [];
  next = 2;
}

before-IsMap : IsMap before.running
unfolding sources
before-IsMap = (refl, (refl, tt))

-- The changed credential restarts, the new one starts, the missing one stops.
restart :
    (reconcile in_order before (new_bot ∷ other_bot ∷ [])).1
    ≡ stopped 0 ∷ stopped 1 ∷ started 2 new_bot ∷ started 3 other_bot ∷ []
unfolding sources
restart = refl

sig_at-reconcile_example :
    sig_at (codes "b1") (reconcile in_order before (new_bot ∷ [])).0.running
    ≡ Option.map fields_sig (assigned (codes "b1") (new_bot ∷ []))
sig_at-reconcile_example = sig_at-reconcile in_order before (new_bot ∷ []) before-IsMap (codes "b1")

runs_old :
    lookup (codes "b1") before.running ≡ some (record { handle = 0; sig = codes "token=x\n" })
unfolding sources
runs_old = refl

given_old : assigned (codes "b1") (old_bot ∷ other_bot ∷ []) ≡ some old_bot
unfolding sources
given_old = refl

sig_old : codes "token=x\n" ≡ fields_sig old_bot
unfolding sources
sig_old = refl

reconcile-IsWarranted_example :
    All (IsWarranted before (new_bot ∷ [])) (reconcile in_order before (new_bot ∷ [])).1
reconcile-IsWarranted_example = reconcile-IsWarranted in_order before (new_bot ∷ []) before-IsMap

reconcile_twice_example :
    (reconcile in_order (reconcile in_order before (new_bot ∷ [])).0 (new_bot ∷ [])).1 ≡ []
reconcile_twice_example = reconcile_twice in_order before (new_bot ∷ []) before-IsMap

fields_sig-injective_example :
    lookup (codes "token") old_bot.fields ≡ lookup (codes "token") twin.fields
unfolding sources
fields_sig-injective_example =
    fields_sig-injective old_bot twin (omega arith) (omega arith) refl (codes "token")

-- The fields `a` = "1" and `b` = "2" become the one field `a` = "1\nb=2".
abbrev split_bot : Supervisor
split_bot = record {
  running = (codes "b1", record { handle = 0; sig = codes "a=1\nb=2\n" }) ∷ [];
  next = 1;
}

split_bot_runs :
    lookup (codes "b1") split_bot.running ≡ some (record { handle = 0; sig = codes "a=1\nb=2\n" })
unfolding sources
split_bot_runs = refl

split_bot_sig :
    codes "a=1\nb=2\n"
    ≡ fields_sig (two_fields (codes "b1") (codes "a") (codes "1") (codes "b") (codes "2"))
unfolding sources
split_bot_sig = refl

a_before_b : text_lt (codes "a") (codes "b") ≡ true
unfolding sources
a_before_b = refl

split_bot-IsMap : IsMap split_bot.running
unfolding sources
split_bot-IsMap = (refl, tt)

reconcile-folded_example :
    lookup
      (codes "b1")
      (reconcile in_order split_bot
        (folded (codes "b1") (codes "a") (codes "1") (codes "b") (codes "2") ∷ [])).0.running
    ≡ some (record { handle = 0; sig = codes "a=1\nb=2\n" })
reconcile-folded_example =
    reconcile-folded in_order split_bot (codes "b1") (codes "a") (codes "1") (codes "b") (codes "2")
      (record { handle = 0; sig = codes "a=1\nb=2\n" }) split_bot-IsMap a_before_b split_bot_runs
      split_bot_sig

abbrev small_board : Board
small_board =
    (codes "poll|b1", entry (codes "t0") (codes "poll") (codes "b1") (codes "running") []) ∷ []
