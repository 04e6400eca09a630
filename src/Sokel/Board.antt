-- ===== src/Sokel/Board.antt =====
-- sokel/event.go: the board of the states of the source instances.
pub mod Entries
use sokel_plugin_sdk.Base.{
  Text, codes, same, Bool, true, false, List, [], ◌∷◌, ◌++◌, Map, put, if◌then◌else◌,
}
use sokel_plugin_sdk.Sokel.Sources.{text_lt}

pub record SourceState : Type 0 where
  pub source_id : Text
  pub credential_id : Text
  pub status : Text
  pub error : Text
  pub since : Text

abbrev pub Board : Type 0
Board = Map SourceState

-- `sourceID+"|"+credID`
unfoldable pub board_key : Text → Text → Text
board_key source cred = source ++ (b'|' ∷ cred)

-- `now` is the value of the clock.
unfoldable pub set_state : Text → Text → Text → Text → Text → Board → Board
unfolding board_key
set_state now source cred status error b =
    put (board_key source cred)
      (record {
        source_id = source;
        credential_id = cred;
        status = status;
        error = error;
        since = now;
      })
      b

unfoldable pub remove_cred : Text → Board → Board
remove_cred cred [] = []
remove_cred cred ((k, st) ∷ b) =
    let rest = remove_cred cred b in if same st.credential_id cred then rest else (k, st) ∷ rest

-- The order of `snapshot`.
unfoldable pub state_lt : SourceState → SourceState → Bool
state_lt a b =
    if same a.source_id b.source_id
    then text_lt a.credential_id b.credential_id
    else text_lt a.source_id b.source_id

insert_state : SourceState → List SourceState → List SourceState
insert_state st [] = st ∷ []
insert_state st (x ∷ xs) = if state_lt x st then x ∷ insert_state st xs else st ∷ x ∷ xs

unfoldable pub snapshot : Board → List SourceState
unfolding insert_state
snapshot [] = []
snapshot ((k, st) ∷ b) = insert_state st (snapshot b)
