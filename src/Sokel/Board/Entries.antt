-- ===== src/Sokel/Board/Entries.antt =====
-- The entries of `stateBoard` in sokel/event.go.
use sokel_plugin_sdk.Base.{
  Text, same, same_iff, true, false, some, List, [], ◌∷◌, lookup, lookup-put, ◌≡◌, ◌≢◌, arith,
  if◌then◌else◌, ◌⊎◌, ◌↔◌, In, ◌&&◌,
}
use sokel_plugin_sdk.Sokel.Sources.Signature.{Lacks}
use sokel_plugin_sdk.Sokel.Sources.Collision.{text_lt-asym}
use sokel_plugin_sdk.Sokel.Board.{
  SourceState, Board, board_key, set_state, remove_cred, state_lt, insert_state, snapshot,
}

-- What an instance's entry becomes.
abbrev pub entry : Text → Text → Text → Text → Text → SourceState
entry now source cred status error = record {
  source_id = source;
  credential_id = cred;
  status = status;
  error = error;
  since = now;
}

same-board_key :
    (source cred source' cred' : Text)
    → Lacks b'|' source
    → Lacks b'|' source'
    → same (board_key source cred) (board_key source' cred')
      ≡ (same source source' && same cred cred')
unfolding board_key same
same-board_key [] cred [] cred' h h' = ground arith
same-board_key [] cred (d ∷ t) cred' h (p, h') = ground arith
same-board_key (c ∷ s) cred [] cred' (p, h) h' = ground arith
same-board_key (c ∷ s) cred (d ∷ t) cred' (p, h) (p', h') =
    ground (arith, same-board_key s cred t cred' h h')

-- Setting the state of an instance replaces the entry of that instance alone, where no source id
-- holds the character `|` that joins the key.
lookup-set_state :
    (now source cred status error source' cred' : Text) (b : Board)
    → Lacks b'|' source
    → Lacks b'|' source'
    → lookup (board_key source' cred') (set_state now source cred status error b) ≡ (
        if same source source' && same cred cred'
        then some (entry now source cred status error)
        else lookup (board_key source' cred') b)
unfolding set_state
lookup-set_state now source cred status error source' cred' b h h' = rw (
  lookup-put (board_key source cred) (board_key source' cred') (entry now source cred status error)
      b,
  same-board_key source cred source' cred' h h',
)

In-insert_state :
    (st x : SourceState) (xs : List SourceState) → In st (insert_state x xs) ↔ ((st ≡ x) ⊎ In st xs)
unfolding insert_state
In-insert_state st x [] = (λ h. h, λ h. h)
In-insert_state st x (y ∷ xs) = ground (arith, In-insert_state st x xs)

-- After the removal of a credential the snapshot holds the states of the other credentials, and
-- only these.
pub In-snapshot-remove_cred :
    (st : SourceState) (cred : Text) (b : Board)
    → In st (snapshot (remove_cred cred b)) ↔ (In st (snapshot b) × (st.credential_id ≢ cred))
unfolding snapshot remove_cred
In-snapshot-remove_cred st cred [] = (λ h. absurd h, λ h. absurd h.0)
In-snapshot-remove_cred st cred ((k, x) ∷ b) = ground (
  arith,
  same_iff x.credential_id cred,
  In-insert_state st x (snapshot b),
  In-insert_state st x (snapshot (remove_cred cred b)),
  In-snapshot-remove_cred st cred b,
)

-- No state stands before one that the order puts first.
abbrev IsOrdered : List SourceState → Type 0
IsOrdered [] = Unit
IsOrdered (x ∷ []) = Unit
IsOrdered (x ∷ y ∷ xs) = (state_lt y x ≡ false) × IsOrdered (y ∷ xs)

state_lt-asym : (a b : SourceState) → state_lt a b ≡ true → state_lt b a ≡ false
unfolding state_lt
state_lt-asym a b h = ground (
  arith,
  same_iff a.source_id b.source_id,
  same_iff b.source_id a.source_id,
  text_lt-asym a.source_id b.source_id,
  text_lt-asym a.credential_id b.credential_id,
)

insert_state-IsOrdered :
    (x : SourceState) (xs : List SourceState) → IsOrdered xs → IsOrdered (insert_state x xs)
unfolding insert_state
insert_state-IsOrdered x [] h = tt
insert_state-IsOrdered x (y ∷ []) h = ground (arith, state_lt-asym y x)
insert_state-IsOrdered x (y ∷ z ∷ xs) (p, h) =
    ground (arith, state_lt-asym y x, insert_state-IsOrdered x (z ∷ xs) h)

-- A snapshot is ordered by source id, and by credential id within a source.
snapshot-IsOrdered : (b : Board) → IsOrdered (snapshot b)
unfolding snapshot
snapshot-IsOrdered [] = tt
snapshot-IsOrdered ((k, st) ∷ b) = insert_state-IsOrdered st (snapshot b) (snapshot-IsOrdered b)
