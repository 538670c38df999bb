-- ===== src/Request/Context.antt =====
-- beater/request/context.go: the request context and the writing of its response.
pub mod Writes
use apm_server.Prelude.{
  ℕ, ◌+◌, String, Option, none, some, Bool, true, false, ◌||◌, ◌&&◌, List, [], ◌∷◌, ◌++◌, Bytes,
  ◌==◌, ltb, if◌then◌else◌, ◌≡◌, refl,
}
use apm_server.Auth.Types.{AuthenticationDetails, Method, method_anonymous}
use apm_server.Auth.Header.{codes}
use apm_server.Auth.Authenticator.{Authorizer}
use apm_server.Request.Result.{Result, Text, Body, text, value, failure, reset}

-- A body for the response writer: a JSON document, indented or not, or a plain text.
pub data Payload : Type 0 where
  error_map : Text → Payload
  json_text : Text → Payload
  json_value : String → Payload

pub data Content : Type 0 where
  json : Bool → Payload → Content
  plain : Text → Content

-- The calls of a `http.ResponseWriter`: `Header().Set`, `WriteHeader` and `Write`. What it does with
-- them is not part of the model; net/http ignores each `WriteHeader` after the first.
pub data WriterCall : Type 0 where
  set_header : String → String → WriterCall
  write_header : ℕ → WriterCall
  write_body : Content → WriterCall

-- The fields that the middlewares and handlers modelled here read or write. Of the `http.Request`
-- these are two headers and what its `context.Context` holds; `calls` are those that the
-- response writer has been given, oldest first.
pub record Context : Type 0 where
  pub authorization : Bytes
  pub accept : Bytes
  pub cancelled : Bool
  pub authorizer : Option Authorizer
  pub authentication : AuthenticationDetails
  pub result : Result
  pub write_attempts : ℕ
  pub calls : List WriterCall

-- `Reset` with a new request.
unfoldable pub reset_context : Bytes → Bytes → Bool → Context
unfolding reset
reset_context authorization accept cancelled = record {
  authorization = authorization;
  accept = accept;
  cancelled = cancelled;
  authorizer = none;
  authentication = record { method = method_anonymous; api_key = none };
  result = reset;
  write_attempts = 0;
  calls = [];
}

unfoldable pub multiple_write_attempts : Context → Bool
multiple_write_attempts c = ltb 1 c.write_attempts

has_prefix : Bytes → Bytes → Bool
has_prefix [] s = true
has_prefix (p ∷ ps) [] = false
has_prefix (p ∷ ps) (b ∷ bs) = p == b && has_prefix ps bs

-- `strings.Contains(s, sub)`
contains : Bytes → Bytes → Bool
unfolding has_prefix
contains [] sub = has_prefix sub []
contains (b ∷ bs) sub = has_prefix sub (b ∷ bs) || contains bs sub

unfoldable pub accept_json : Context → Bool
unfolding contains
accept_json c = contains c.accept (codes "*/*") || contains c.accept (codes "application/json")

-- A failure with a text for a body is sent as a map.
unfoldable pub payload_of : Bool → Body → Payload
payload_of true (text t) = error_map t
payload_of false (text t) = json_text t
payload_of failed (value v) = json_value v

unfoldable pub plain_content : Payload → Content
plain_content (error_map t) = json false (error_map t)
plain_content (json_text t) = plain t
plain_content (json_value v) = json false (json_value v)

-- The calls that `Write` makes for the result.
unfoldable pub write_result : Context → Option Body → List WriterCall
unfolding payload_of plain_content
write_result c none = write_header c.result.status_code ∷ []
write_result c (some body) =
    let payload = payload_of (failure c.result) body in
    if accept_json c
    then set_header "Content-Type" "application/json"
      ∷ write_header c.result.status_code
      ∷ write_body (json true payload)
      ∷ []
    else set_header "Content-Type" "text/plain; charset=utf-8"
      ∷ write_header c.result.status_code
      ∷ write_body (plain_content payload)
      ∷ []

unfoldable pub write_calls : Context → List WriterCall
unfolding write_result
write_calls c = set_header "X-Content-Type-Options" "nosniff" ∷ write_result c c.result.body

-- `Write`, to a writer that does not panic; an error of the writer is only logged.
unfoldable pub write : Context → Context
unfolding multiple_write_attempts write_calls
write c =
    if multiple_write_attempts c
    then c
    else record c { write_attempts = c.write_attempts + 1; calls = c.calls ++ write_calls c }
