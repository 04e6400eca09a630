-- ===== src/Sokel/Sources/Collision.antt =====
-- Signatures of different fields by `fieldsSig` of sokel/event.go.
use sokel_plugin_sdk.Base.{
  Text, same, same_iff, same_refl, true, false, some, [], ◌∷◌, ◌++◌, lookup, IsMap, RangeOrder, ◌≡◌,
  refl, ◌∙◌, arith, append_assoc,
}
use sokel_plugin_sdk.Sokel.Sources.{
  CredEntry, text_lt, insert_sorted, fields_sig, Instance, Supervisor, reconcile,
}
use sokel_plugin_sdk.Sokel.Sources.Reconcile.{lookup-reconcile_kept}

pub text_lt-asym : (s t : Text) → text_lt s t ≡ true → text_lt t s ≡ false
unfolding text_lt
text_lt-asym [] [] h = ground arith
text_lt-asym [] (b ∷ t) h = refl
text_lt-asym (a ∷ s) [] h = cc
text_lt-asym (a ∷ s) (b ∷ t) h = ground (arith, text_lt-asym s t)

text_lt_irrefl : (s : Text) → text_lt s s ≡ false
unfolding text_lt
text_lt_irrefl [] = refl
text_lt_irrefl (a ∷ s) = ground (arith, text_lt_irrefl s)

abbrev pub two_fields : Text → Text → Text → Text → Text → CredEntry
two_fields id k v j w = record { id = id; fields = (k, v) ∷ (j, w) ∷ [] }

-- One field whose value spells the second line.
abbrev pub folded : Text → Text → Text → Text → Text → CredEntry
folded id k v j w = record { id = id; fields = (k, v ++ (b'\n' ∷ (j ++ (b'=' ∷ w)))) ∷ [] }

fields_sig-folded :
    (id k v j w : Text)
    → text_lt k j ≡ true
    → fields_sig (two_fields id k v j w) ≡ fields_sig (folded id k v j w)
unfolding fields_sig insert_sorted
fields_sig-folded id k v j w h =
    let apart : same k j ≡ false = ground (arith, same_iff k j, text_lt_irrefl k) in
    rw (text_lt-asym k j h, same_refl k, same_refl j, apart) (simp append_assoc)

-- An instance that runs with the fields `k` and `j`, in this order, is not restarted when its
-- credential is assigned with `k` alone, at the value of `k`, a newline, and the line of `j`: the
-- two have one signature.
pub reconcile-folded :
    (o : RangeOrder) (s : Supervisor) (id k v j w : Text) (r : Instance)
    → IsMap s.running
    → text_lt k j ≡ true
    → lookup id s.running ≡ some r
    → r.sig ≡ fields_sig (two_fields id k v j w)
    → lookup id (reconcile o s (folded id k v j w ∷ [])).0.running ≡ some r
reconcile-folded o s id k v j w r h lt runs sig =
    lookup-reconcile_kept o s (folded id k v j w ∷ []) h id r (folded id k v j w) runs
      (rw (same_refl id)) (sig ∙ fields_sig-folded id k v j w lt)
