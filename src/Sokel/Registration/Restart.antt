-- ===== src/Sokel/Registration/Restart.antt =====
-- The states of a credential whose instance is restarted, in `run` of sokel/transport_nats.go.
use sokel_plugin_sdk.Base.{Text, true, List, [], ◌∷◌, All, In, Option, ◌≢◌, refl, inl, inr}
use sokel_plugin_sdk.Sokel.Errors.{GoError}
use sokel_plugin_sdk.Sokel.Board.{Board, SourceState, snapshot}
use sokel_plugin_sdk.Sokel.Board.Entries.{In-snapshot-remove_cred}
use sokel_plugin_sdk.Sokel.Registration.{source_start, source_end}

All-of_In : {A : Type 0} (P : A → Type 0) (xs : List A) → ((x : A) → In x xs → P x) → All P xs
All-of_In P [] h = tt
All-of_In P (x ∷ xs) h = (h x (inl refl), All-of_In P xs (λ y i. h y (inr i)))

-- The end of a cancelled instance removes every state of its credential from the report, also the
-- state `running` that a new instance of that credential has set before.
pub source_end-erases :
    (result : Option GoError) (old_source new_source cred started ended : Text) (b : Board)
    → All
        (λ (st : SourceState). st.credential_id ≢ cred)
        (snapshot
          (source_end true result ended old_source cred (source_start started new_source cred b)))
unfolding source_end
source_end-erases result old_source new_source cred started ended b = All-of_In _ _ (λ st held.
    ((In-snapshot-remove_cred st cred (source_start started new_source cred b)).0 held).1)
