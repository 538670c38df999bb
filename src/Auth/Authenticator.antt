-- ===== src/Auth/Authenticator.antt =====
-- beater/auth/authenticator.go, allow.go and context.go: the choice of a method by the kind of the
-- `Authorization` header, and the authorizer that each method gives.
pub mod Decision
use apm_server.Prelude.{
  ℕ, ◌≡◌, ◌⊎◌, inl, inr, String, Bool, true, false, ◌&&◌, not, List, [], ◌∷◌, Option, none, some,
  Bytes, bytes_eq, if◌then◌else◌, is_some, is_empty,
}
use apm_server.Auth.Types.{
  Method, method_none, method_api_key, method_secret_token, method_anonymous, Action, Resource,
  ApiKeyAuthenticationDetails, AuthenticationDetails, Error, auth_failed, auth_missing,
  unknown_header, unauthorized, no_authorizer, Result, ok, err,
}
use apm_server.Auth.Header.{header_api_key, header_bearer}
use apm_server.Auth.Anonymous.{AnonymousAuth, new_anonymous_auth, authorize_anonymous}
use apm_server.Auth.ApiKey.{
  Permissions, HasPrivilegesResponse, Cache, Server, PrivilegesCache, authenticate_api_key,
  authorize_api_key,
}

-- The values of the interface `Authorizer`: `allowAuth`, `*anonymousAuth`, `*apikeyAuthorizer`,
-- and the `denyAll` of beater/middleware/auth_middleware.go.
pub data Authorizer : Type 0 where
  allow_auth deny_all : Authorizer
  anonymous_auth : AnonymousAuth → Authorizer
  api_key_authorizer : Permissions → Authorizer

unfoldable pub authorize : Authorizer → Action → Resource → Result (Unit {0})
authorize allow_auth action resource = ok tt
authorize deny_all action resource = err unauthorized
authorize (anonymous_auth a) action resource = authorize_anonymous a action resource
authorize (api_key_authorizer permissions) action resource =
    authorize_api_key permissions action resource

-- `auth.Authorize`, with the authorizer that the context holds, if any.
unfoldable pub authorize_context : Option Authorizer → Action → Resource → Result (Unit {0})
authorize_context none action resource = err no_authorizer
authorize_context (some authorizer) action resource = authorize authorizer action resource

-- `elasticsearch.Config`: the credentials, and the rest as one text.
pub record EsConfig : Type 0 where
  pub username : String
  pub password : String
  pub api_key : String
  pub connection : String

-- `config.AgentAuth`, as far as the authenticator reads it.
pub record AgentAuth : Type 0 where
  pub anonymous_enabled : Bool
  pub allow_agent : List String
  pub allow_service : List String
  pub api_key_enabled : Bool
  pub limit_per_min : ℕ
  pub es_config : EsConfig
  pub secret_token : Bytes

module _ (cache : Cache (Option HasPrivilegesResponse)) where
  -- `apikeyAuth`
  pub record ApiKeyAuth : Type 0 where
    pub es_client : Server
    pub privileges : PrivilegesCache cache

  pub record Authenticator : Type 0 where
    pub secret_token : Bytes
    pub api_key : Option ApiKeyAuth
    pub anonymous : Option AnonymousAuth

  abbrev pub Authentication : Type 0
  Authentication = AuthenticationDetails × Authorizer

  -- `NewAuthenticator`; `new_client` is `elasticsearch.NewClient`, `empty` a new cache.
  module _ (new_client : EsConfig → Result Server) (empty : cache.State) where
    unfoldable pub new_api_key_auth : AgentAuth → Result (Option ApiKeyAuth)
    new_api_key_auth cfg =
        if cfg.api_key_enabled
        then elim (new_client
            (record cfg.es_config { username = ""; password = ""; api_key = "" })) [
              | err e ↦ err e
              | ok client ↦ ok (
                  some (record {
                    es_client = client;
                    privileges = record { cached = empty; size = cfg.limit_per_min };
                  }))
            ]
        else ok none

    unfoldable pub new_authenticator : AgentAuth → Result Authenticator
    unfolding new_api_key_auth
    new_authenticator cfg = elim (new_api_key_auth cfg) [
      | err e ↦ err e
      | ok api_key ↦ ok (record {
        secret_token = cfg.secret_token;
        api_key = api_key;
        anonymous =
            if cfg.anonymous_enabled
            then some (new_anonymous_auth cfg.allow_agent cfg.allow_service)
            else none;
      })
    ]

  -- The case of the header's kind being empty.
  unfoldable pub authenticate_missing : Option AnonymousAuth → Result Authentication
  authenticate_missing (some anonymous) =
      ok (record { method = method_anonymous; api_key = none }, anonymous_auth anonymous)
  authenticate_missing none = err auth_missing

  details_of : Result (ApiKeyAuthenticationDetails × Permissions) → Result Authentication
  details_of (ok (details, permissions)) =
      ok
        (record { method = method_api_key; api_key = some details }, api_key_authorizer permissions)
  details_of (err e) = err e

  -- The case `headers.APIKey`.
  unfoldable pub authenticate_key :
      Authenticator → Option ApiKeyAuth → Bytes → Authenticator × Result Authentication
  unfolding details_of
  authenticate_key a none token = (a, err auth_failed)
  authenticate_key a (some auth) token =
      let (privileges, result) = authenticate_api_key cache auth.es_client auth.privileges token in
      (record a { api_key = some (record auth { privileges = privileges }) }, details_of result)

  -- The case `headers.Bearer`.
  unfoldable pub authenticate_bearer : Bytes → Bytes → Result Authentication
  authenticate_bearer secret_token token =
      if not (is_empty secret_token) && bytes_eq secret_token token
      then ok (record { method = method_secret_token; api_key = none }, allow_auth)
      else err auth_failed

  unfoldable pub authenticate :
      Authenticator → Bytes → Bytes → Authenticator × Result Authentication
  unfolding authenticate_missing authenticate_key authenticate_bearer
  authenticate a kind token =
      if not (is_some a.api_key) && is_empty a.secret_token
      then (a, ok (record { method = method_none; api_key = none }, allow_auth))
      else (if is_empty kind
          then (a, authenticate_missing a.anonymous)
          else (if bytes_eq kind header_api_key
              then authenticate_key a a.api_key token
              else (if bytes_eq kind header_bearer
                  then (a, authenticate_bearer a.secret_token token)
                  else (a, err (unknown_header kind)))))
