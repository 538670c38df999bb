-- ===== src/Middleware/Gate.antt =====
-- What the authentication middleware lets through to the handler.
use apm_server.Prelude.{none, some, Bool, true, false, ◌≡◌, inl, inr, refl, ap, Bool-cases}
use apm_server.Auth.Types.{
  Method, method_anonymous, AuthenticationDetails, Action, Resource, Result-cases, unauthorized,
  is_auth_failed,
}
use apm_server.Auth.Types
use apm_server.Auth.Authenticator.{Authorizer, deny_all}
use apm_server.Request.Context.{Context}
use apm_server.Middleware.{
  Handler, Authenticate, then_run, admit, forbid, auth_middleware, authenticate_request,
}

module _ (authenticate : Authenticate) (required : Bool) where
  -- A context that the handler may see: it carries what the authenticator granted for the request's
  -- own header, or, where authentication is optional, the authorizer that denies everything.
  pub data Admitted (c c' : Context) : Type 0 where
    granted :
        (details : AuthenticationDetails) (authorizer : Authorizer)
        → authenticate_request authenticate c ≡ Types.ok (details, authorizer)
        → c' ≡ record c { authentication = details; authorizer = some authorizer }
        → Admitted c c'
    denied :
        (e : Types.Error)
        → required ≡ false
        → authenticate_request authenticate c ≡ Types.err e
        → is_auth_failed e ≡ true
        → c' ≡ record c {
          authentication = record { method = method_anonymous; api_key = none };
          authorizer = some deny_all;
        }
        → Admitted c c'

  -- The handler's behaviour matters only on the contexts that may be admitted: two handlers that
  -- agree there are indistinguishable behind the middleware. So no other request reaches a handler.
  pub auth_middleware-Admitted :
      (h h' : Handler) (c : Context)
      → ((c' : Context) → Admitted c c' → h c' ≡ h' c')
      → auth_middleware authenticate required h c ≡ auth_middleware authenticate required h' c
  unfolding auth_middleware admit
  auth_middleware-Admitted h h' c agree =
      elim (Result-cases (authenticate_request authenticate c)) [
        | inl ((details, authorizer), e) ↦
            rw (e, auth_middleware)
              (ap (λ x. then_run x forbid) (agree _ (granted details authorizer e refl)))
        | inr (x, e) ↦
            rw (e, auth_middleware)
              (elim (Bool-cases (is_auth_failed x)) [
                | inr f ↦ rw f
                | inl f ↦ elim (Bool-cases required) [
                  | inl r ↦ rw (f, r)
                  | inr r ↦ rw (f, r) (ap (λ x. then_run x forbid) (agree _ (denied x r e f refl)))
                ]
              ])
      ]
