-- ===== src/Sokel/Sources.antt =====
-- sokel/event.go: the supervisor that runs event sources for each assigned credential.
pub mod Signature
pub mod Reconcile
pub mod Effects
pub mod Stable
pub mod Collision
use sokel_plugin_sdk.Base.{
  ℕ, zero, suc, ◌+◌, Text, same, Bool, true, false, Option, none, some, List, [], ◌∷◌, ◌++◌, Map,
  lookup, put, index, RangeOrder, leb, ltb, ◌==◌, ◌&&◌, ◌||◌, if◌then◌else◌,
}

-- `credEntry`
pub record CredEntry : Type 0 where
  pub id : Text
  pub fields : Map Text

-- The order of Go strings: by bytes.
unfoldable pub text_lt : Text → Text → Bool
text_lt [] [] = false
text_lt [] (b ∷ t) = true
text_lt (a ∷ s) [] = false
text_lt (a ∷ s) (b ∷ t) = ltb a b || (a == b && text_lt s t)

-- `sort.Strings`
unfoldable pub insert_sorted : Text → List Text → List Text
insert_sorted k [] = k ∷ []
insert_sorted k (j ∷ js) = if text_lt j k then j ∷ insert_sorted k js else k ∷ j ∷ js

unfoldable pub sort_texts : List Text → List Text
unfolding insert_sorted
sort_texts [] = []
sort_texts (k ∷ ks) = insert_sorted k (sort_texts ks)

unfoldable pub keys : Map Text → List Text
keys [] = []
keys ((k, v) ∷ m) = k ∷ keys m

-- One line `k=v` for each key.
unfoldable pub signature_lines : Map Text → List Text → Text
signature_lines m [] = []
signature_lines m (k ∷ ks) = k ++ (b'=' ∷ (index [] k m ++ (b'\n' ∷ signature_lines m ks)))

unfoldable pub fields_sig : CredEntry → Text
unfolding signature_lines sort_texts keys index
fields_sig c = signature_lines c.fields (sort_texts (keys c.fields))

unfoldable pub desired_source_creds : List CredEntry → List CredEntry
desired_source_creds [] = record { id = []; fields = [] } ∷ []
desired_source_creds (c ∷ cs) = c ∷ cs

-- A running instance: its stop function, numbered in the order of the starts, and its signature.
pub record Instance : Type 0 where
  pub handle : ℕ
  pub sig : Text

pub record Supervisor : Type 0 where
  pub running : Map Instance
  pub next : ℕ

abbrev pub new_source_supervisor : Supervisor
new_source_supervisor = record { running = []; next = 0 }

-- What the supervisor does to the outside: a call of `start`, or of a stop function.
pub data Effect : Type 0 where
  started : ℕ → CredEntry → Effect
  stopped : ℕ → Effect

-- `want[c.ID] = c`, over the desired entries
unfoldable pub wanted_from : Map CredEntry → List CredEntry → Map CredEntry
wanted_from want [] = want
wanted_from want (c ∷ cs) = wanted_from (put c.id c want) cs

-- `ok && c.fieldsSig() == r.sig`
unfoldable pub stays : Map CredEntry → Text → Instance → Bool
stays want id r = elim (lookup id want) [ none ↦ false | some c ↦ same (fields_sig c) r.sig ]

-- The first loop, over the entries of `running` in the order visited.
unfoldable pub stop_all : Map CredEntry → Map Instance → Map Instance × List Effect
stop_all want [] = ([], [])
stop_all want ((id, r) ∷ rest) =
    let (kept, effects) = stop_all want rest in
    if stays want id r then ((id, r) ∷ kept, effects) else (kept, stopped r.handle ∷ effects)

unfoldable pub start_one : Text → CredEntry → Supervisor → Supervisor × List Effect
start_one id c s = elim (lookup id s.running) [
  | some r ↦ (s, [])
  | none ↦ (
    record {
      running = put id (record { handle = s.next; sig = fields_sig c }) s.running;
      next = s.next + 1;
    },
    started s.next c ∷ [],
  )
]

-- The second loop, over the entries of `want` in the order visited.
unfoldable pub start_all : Map CredEntry → Supervisor → Supervisor × List Effect
start_all [] s = (s, [])
start_all ((id, c) ∷ rest) s =
    let (s1, effects) = start_one id c s in
    let (s2, more) = start_all rest s1 in (s2, effects ++ more)

unfoldable pub reconcile : RangeOrder → Supervisor → List CredEntry → Supervisor × List Effect
reconcile o s desired =
    let want = wanted_from [] desired in
    let (kept, stops) = stop_all want (o.visit Instance s.running) in
    let (s', starts) = start_all (o.visit CredEntry want) (record s { running = kept }) in
    (s', stops ++ starts)
