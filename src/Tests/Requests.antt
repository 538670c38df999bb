-- ===== src/Tests/Requests.antt =====
-- Requests: contexts, handlers behind the middleware, and the authenticator's rules.
use Prim.Native.Nat.{min}
use apm_server.Prelude.{
  ◌≡◌, refl, sym, subst, ◌⊎◌, ◌↔◌, [], ◌∷◌, Option, none, some, Bool, true, false, length, is_some,
  List, count, take, if◌then◌else◌,
}
use apm_server.Auth.Types
use apm_server.Auth.Types.{
  Method, method_secret_token, AuthenticationDetails, Resource, agent_config, event_ingest,
  sourcemap_upload, Error, auth_failed, is_auth_failed,
}
use apm_server.Auth.Header.{codes, header_bearer, decode_string, parse_authorization_header}
use apm_server.Auth.Anonymous.{new_anonymous_auth, authorize_anonymous}
use apm_server.Auth.Anonymous.Access.{Allows, authorize_anonymous_iff}
use apm_server.Auth.ApiKey.{HasPrivilegesResponse}
use apm_server.Auth.Authenticator.{allow_auth, Authenticator}
use apm_server.Auth.Authenticator.Decision.{Granted, outcome, authenticate-Granted_iff}
use apm_server.Request.Result.{Result, internal, valid_ok, value, set_with_body}
use apm_server.Request.Context.{Context, reset_context}
use apm_server.Request.Context.Writes.{
  write_results, is_write_header, is_write_body, has_body, count-write_results,
}
use apm_server.Middleware.{
  Handler, Exit, returned, panicked, Panic, Authenticate, auth_middleware, recover_panic_middleware,
  Writer,
}
use apm_server.Middleware
use apm_server.Middleware.Gate.{Admitted, granted, denied, auth_middleware-Admitted}
use apm_server.Middleware.Recovery.{recover_panic_returns}
use apm_server.Tests.Fixtures.{map_cache}

decode_example : decode_string (codes "aWQ6a2V5") ≡ some (codes "id:key")
unfolding decode_string
decode_example = refl

parse_example : parse_authorization_header (codes "ApiKey abc") ≡ (codes "ApiKey", codes "abc")
unfolding parse_authorization_header
parse_example = refl

abbrev start : Context
unfolding reset_context
start = reset_context (codes "Bearer abc") [] false

-- The results of two writes, with a body each, and of a third.
abbrev results : List Result
unfolding set_with_body
results =
    set_with_body start.result valid_ok (some (value "first"))
    ∷ set_with_body start.result valid_ok (some (value "second"))
    ∷ set_with_body start.result valid_ok (some (value "third"))
    ∷ []

count-write_results_example :
    (count is_write_header (write_results results (reset_context [] [] false)).calls
      ≡ min (length results) 2)
    × (count is_write_body (write_results results (reset_context [] [] false)).calls
        ≡ count has_body (take 2 results))
count-write_results_example = count-write_results results [] [] false

two_bodies : count has_body (take 2 results) ≡ 2
unfolding results
two_bodies = refl

abbrev boom : Handler
boom c = panicked c (Middleware.other "boom")

-- The nil writer of a context that has not been reset: every call panics.
abbrev no_writer : Writer
no_writer given call = some (Middleware.other "nil pointer dereference")

recover_panic_returns_example :
    (c : Context) × (recover_panic_middleware no_writer "stack" boom start ≡ returned c)
    × ((boom start ≡ returned c)
        ⊎ ((d : Context) × (p : Panic) × (boom start ≡ panicked d p)
            × (c.result.id ≡ internal)
            × (c.result.status_code ≡ 500)
            × (c.result.stacktrace ≡ "stack")))
recover_panic_returns_example = recover_panic_returns no_writer "stack" boom start

abbrev secret : Authenticate
secret kind token = Types.ok (record { method = method_secret_token; api_key = none }, allow_auth)

-- Two handlers that differ only where no authorizer is set.
abbrev serve : Handler
serve c = returned c

abbrev serve_authorized : Handler
serve_authorized c =
    if is_some c.authorizer then returned c else panicked c (Middleware.other "no authorizer")

serve_agree :
    (required : Bool) (c c' : Context)
    → Admitted secret required c c'
    → serve c' ≡ serve_authorized c'
serve_agree required c c' (granted details authorizer e same) =
    subst (λ x. serve x ≡ serve_authorized x) (sym same) refl
serve_agree required c c' (denied x r e f same) =
    subst (λ y. serve y ≡ serve_authorized y) (sym same) refl

auth_middleware-Admitted_example :
    auth_middleware secret true serve start ≡ auth_middleware secret true serve_authorized start
auth_middleware-Admitted_example =
    auth_middleware-Admitted secret true serve serve_authorized start (serve_agree true start)

abbrev with_secret : Authenticator (map_cache {V = Option HasPrivilegesResponse})
with_secret = record { secret_token = codes "abc"; api_key = none; anonymous = none }

abbrev by_token : AuthenticationDetails
by_token = record { method = method_secret_token; api_key = none }

authenticate-Granted_iff_example :
    (outcome (map_cache {V = Option HasPrivilegesResponse}) with_secret header_bearer (codes "abc")
      ≡ Types.ok (by_token, allow_auth))
    ↔ Granted
        (map_cache {V = Option HasPrivilegesResponse})
        with_secret
        header_bearer
        (codes "abc")
        by_token
        allow_auth
authenticate-Granted_iff_example =
    authenticate-Granted_iff (map_cache {V = Option HasPrivilegesResponse}) with_secret
      header_bearer (codes "abc") by_token allow_auth

abbrev phone : Resource
phone = record { agent_name = "iOS/swift"; service_name = "shop" }

authorize_anonymous_iff_example :
    ((authorize_anonymous (new_anonymous_auth ("iOS/swift" ∷ []) []) event_ingest phone
        ≡ Types.ok tt)
      ↔ (Allows [] "shop" × Allows ("iOS/swift" ∷ []) "iOS/swift"))
    × ((authorize_anonymous (new_anonymous_auth ("iOS/swift" ∷ []) []) agent_config phone
          ≡ Types.ok tt)
        ↔ Allows [] "shop")
    × ¬ (
        authorize_anonymous (new_anonymous_auth ("iOS/swift" ∷ []) []) sourcemap_upload phone
        ≡ Types.ok tt)
authorize_anonymous_iff_example = authorize_anonymous_iff ("iOS/swift" ∷ []) [] phone
