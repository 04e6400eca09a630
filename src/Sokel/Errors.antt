-- ===== src/Sokel/Errors.antt =====
-- sokel/errors.go: the classification of a handler's error.
pub mod Codes
use sokel_plugin_sdk.Base.{Text, codes, same, Bool, true, false, Option, none, some}

abbrev pub ErrorCode : Type 0
ErrorCode = Text

abbrev pub code_retryable : ErrorCode
code_retryable = codes "retryable"

abbrev code_credential_invalid : ErrorCode
code_credential_invalid = codes "credential_invalid"

abbrev code_invalid_input : ErrorCode
code_invalid_input = codes "invalid_input"

-- An error value: a message, an error wrapped by `fmt.Errorf` with `%w` (with the message that
-- this gives), or the type `Error` of this package.
pub data GoError : Type 0 where
  plain : Text → GoError
  wrap : Text → GoError → GoError
  coded : ErrorCode → GoError → GoError

-- `err.Error()`
unfoldable pub message : GoError → Text
message (plain t) = t
message (wrap t e) = t
message (coded c e) = message e

unfoldable pub retryable : GoError → GoError
retryable e = coded code_retryable e

unfoldable credential_invalid : GoError → GoError
credential_invalid e = coded code_credential_invalid e

unfoldable invalid_input : GoError → GoError
invalid_input e = coded code_invalid_input e

-- `errors.As(err, &e)`, with the code of what it finds
unfoldable pub as_error : GoError → Option ErrorCode
as_error (plain t) = none
as_error (wrap t e) = as_error e
as_error (coded c e) = some c

code_answer : Option ErrorCode → ErrorCode × Bool
code_answer none = (codes "", false)
code_answer (some c) = (c, same c code_retryable)

unfoldable code_of : GoError → ErrorCode × Bool
unfolding as_error code_answer
code_of e = code_answer (as_error e)

-- The members `error`, `code` and `retryable` of a reply, and of an `error` frame.
pub record ErrorReply : Type 0 where
  pub text : Text
  pub code : ErrorCode
  pub retryable : Bool

unfoldable pub error_reply : GoError → ErrorReply
unfolding code_of message
error_reply e = record { text = message e; code = (code_of e).0; retryable = (code_of e).1 }
