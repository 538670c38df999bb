-- ===== src/Middleware.antt =====
-- beater/middleware: functions that wrap a request handler. A handler that panics leaves the
-- context as it was at that moment.
pub mod Gate
pub mod Recovery
use apm_server.Prelude.{
  ℕ, ◌+◌, String, Option, none, some, Bool, true, false, List, [], ◌∷◌, ◌++◌, Bytes, ◌⊎◌, inl, inr,
  if◌then◌else◌, leb, ◌≡◌, refl,
}
use apm_server.Auth.Types.{method_anonymous, is_auth_failed, AuthenticationDetails}
use apm_server.Auth.Types
use apm_server.Auth.Header.{parse_authorization_header}
use apm_server.Auth.Authenticator.{Authorizer, deny_all}
use apm_server.Request.Result.{
  Result, ResultId, Fault, auth, message, wrap_error, status_or_internal, Body, Text, literal,
  error_text, text, set_result, set_default, set_with_error, fault_is_unauthorized,
}
use apm_server.Request.Result
use apm_server.Request.Context.{Context, WriterCall, multiple_write_attempts, write_calls, write}

-- The value of a panic: a Go error, or anything else.
pub data Panic : Type 0 where
  fault : Fault → Panic
  other : String → Panic

pub data Exit : Type 0 where
  returned : Context → Exit
  panicked : Context → Panic → Exit

abbrev pub Handler : Type 0
Handler = Context → Exit

-- What stands after the call of the wrapped handler is skipped if that panics.
unfoldable pub then_run : Exit → (Context → Context) → Exit
then_run (returned c) f = returned (f c)
then_run (panicked c p) f = panicked c p

-- `Middleware`: the wrapped handler, or the error of wrapping it.
abbrev pub Middleware : Type 0
Middleware = Handler → Handler ⊎ String

-- `Wrap`: the last middleware is applied first.
unfoldable pub wrap : Handler → List Middleware → Handler ⊎ String
wrap h [] = inl h
wrap h (m ∷ ms) = elim (wrap h ms) [ inl inner ↦ m inner | inr e ↦ inr e ]

-- The end of the authentication middleware: a handler's `ErrUnauthorized` becomes a 403.
abbrev forbid_result : Result → Result
forbid_result r =
    set_result r ResultId.forbidden (status_or_internal ResultId.forbidden).code r.keyword r.body
      r.err

forbid_by_id : Result → ResultId → Result
forbid_by_id r ResultId.unset = forbid_result r
forbid_by_id r ResultId.internal = forbid_result r
forbid_by_id r _ = r

unfoldable pub has_unauthorized : Option Fault → Bool
has_unauthorized none = false
has_unauthorized (some f) = fault_is_unauthorized f

unfoldable pub forbid : Context → Context
unfolding forbid_by_id has_unauthorized
forbid c =
    if has_unauthorized c.result.err
    then record c { result = forbid_by_id c.result c.result.id }
    else c

-- `AuthMiddleware`. The interface `Authenticator` is a function from the kind and the token.
abbrev pub Authenticate : Type 0
Authenticate = Bytes → Bytes → Types.Result (AuthenticationDetails × Authorizer)

unfoldable pub refuse : Context → Types.Error → Context
refuse c e = write (record c {
  result =
      set_result c.result ResultId.unauthorized (status_or_internal ResultId.unauthorized).code
        (error_text (auth e)) none none;
})

unfoldable pub unavailable : Context → Types.Error → Context
unavailable c e = write (record c {
  result = record (set_default c.result ResultId.service_unavailable) { err = some (auth e) };
})

unfoldable pub admit : Handler → Context → AuthenticationDetails → Authorizer → Exit
unfolding then_run
admit h c details authorizer =
    then_run (h (record c { authentication = details; authorizer = some authorizer })) forbid

abbrev pub authenticate_request :
    Authenticate → Context → Types.Result (AuthenticationDetails × Authorizer)
authenticate_request authenticate c =
    let (kind, token) = parse_authorization_header c.authorization in authenticate kind token

unfoldable pub auth_middleware : Authenticate → Bool → Handler → Handler
auth_middleware authenticate required h c = elim (authenticate_request authenticate c) [
  | Types.ok (details, authorizer) ↦ admit h c details authorizer
  | Types.err e ↦
      if is_auth_failed e
      then (if required
          then returned (refuse c e)
          else admit h c (record { method = method_anonymous; api_key = none }) deny_all)
      else returned (unavailable c e)
]

-- `KillSwitchMiddleware`
unfoldable pub kill_switch_middleware : Bool → String → Handler → Handler
kill_switch_middleware enabled error_message h c =
    if enabled
    then h c
    else returned (
        write (record c {
          result =
              set_with_error c.result ResultId.forbidden (some (message (literal error_message)));
        }))

-- A response writer: whether it panics on a call, after those that it has been given.
abbrev pub Writer : Type 0
Writer = List WriterCall → WriterCall → Option Panic

-- Calls given one after the other. The one on which the writer panics is the last.
unfoldable pub give : Writer → Context → List WriterCall → Exit
give writer c [] = returned c
give writer c (call ∷ calls) =
    let given = record c { calls = c.calls ++ call ∷ [] } in
    let rest = give writer given calls in
    elim (writer c.calls call) [ none ↦ rest | some p ↦ panicked given p ]

-- `Context.Write`, to any writer.
unfoldable pub write_to : Writer → Context → Exit
unfolding give
write_to writer c =
    if multiple_write_attempts c
    then returned c
    else give writer (record c { write_attempts = c.write_attempts + 1 }) (write_calls c)

-- `RecoverPanicMiddleware`; `stack` is the text of `debug.Stack()`.
unfoldable pub panic_error : Panic → Text → Option Fault
unfolding wrap_error
panic_error (fault f) keyword = some f
panic_error (other reason) keyword = wrap_error none keyword

-- The result that is set after a panic.
unfoldable pub recovered : String → Context → Panic → Context
unfolding panic_error
recovered stack c p =
    let status = status_or_internal ResultId.internal in
    let keyword = literal status.keyword in
    let result =
      set_result c.result ResultId.internal status.code keyword
        (some (text (literal "panic handling request"))) (panic_error p keyword) in
    record c { result = record result { stacktrace = stack } }

-- The inner `recover()`, for a panic while the response is written.
unfoldable pub recover_again : Exit → Exit
recover_again (returned c) = returned c
recover_again (panicked c p) = returned c

unfoldable pub recover_panic_middleware : Writer → String → Handler → Handler
unfolding write_to recovered recover_again
recover_panic_middleware writer stack h c = elim (h c) [
  | returned c' ↦ returned c'
  | panicked c' p ↦ recover_again (write_to writer (recovered stack c' p))
]

-- `TimeoutMiddleware`
unfoldable pub time_out : Context → Context
time_out c =
    let timed_out = message (literal "request timed out") in
    if c.cancelled
    then record c {
      result = record (set_default c.result ResultId.timeout) {
        err = some timed_out;
        body = some (text (error_text timed_out));
      };
    }
    else c

unfoldable pub timeout_middleware : Handler → Handler
unfolding then_run time_out
timeout_middleware h c = then_run (h c) time_out
