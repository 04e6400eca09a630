-- ===== src/Sokel/Errors/Codes.antt =====
-- `errorReply` of sokel/errors.go on chains of wrapped errors.
use sokel_plugin_sdk.Base.{Text, same_iff, true, ◌≡◌, ◌↔◌, List, [], ◌∷◌, refl, some}
use sokel_plugin_sdk.Sokel.Errors.{
  ErrorCode, GoError, wrap, coded, as_error, error_reply, code_retryable,
}

-- `fmt.Errorf("…: %w", err)`, repeated.
abbrev pub wrap_all : List Text → GoError → GoError
wrap_all [] e = e
wrap_all (t ∷ ts) e = wrap t (wrap_all ts e)

as_error-wrap_all :
    (ts : List Text) (c : ErrorCode) (e : GoError) → as_error (wrap_all ts (coded c e)) ≡ some c
unfolding as_error
as_error-wrap_all [] c e = refl
as_error-wrap_all (t ∷ ts) c e = as_error-wrap_all ts c e

-- However often a coded error is wrapped, its code travels, and the reply is marked retryable
-- exactly for the code `retryable`.
pub error_reply-wrap_all :
    (ts : List Text) (c : ErrorCode) (e : GoError)
    → ((error_reply (wrap_all ts (coded c e))).code ≡ c)
      × (((error_reply (wrap_all ts (coded c e))).retryable ≡ true) ↔ (c ≡ code_retryable))
unfolding error_reply
error_reply-wrap_all ts c e = rw (as_error-wrap_all ts c e) (refl, same_iff c code_retryable)
