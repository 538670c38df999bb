-- ===== src/Auth/Authenticator/Decision.antt =====
-- Who is let in, and with which authorizer: `Authenticate` against its documented rules.
use apm_server.Prelude.{
  ◌≡◌, ◌≢◌, ◌⊎◌, inl, inr, ◌↔◌, [], Option, none, some, Bytes, bytes_eq, bytes_eq_iff, arith,
  Bool-cases, Option-cases, List-cases,
}
use apm_server.Auth.Types.{
  method_none, method_api_key, method_secret_token, method_anonymous, ApiKeyAuthenticationDetails,
  AuthenticationDetails, Result, ok, Result-cases,
}
use apm_server.Auth.Header.{header_api_key, header_bearer}
use apm_server.Auth.Anonymous.{AnonymousAuth}
use apm_server.Auth.ApiKey.{
  Permissions, HasPrivilegesResponse, Cache, PrivilegesCache, authenticate_api_key,
}
use apm_server.Auth.Authenticator.{
  Authorizer, allow_auth, anonymous_auth, api_key_authorizer, ApiKeyAuth, Authenticator,
  authenticate, authenticate_missing, authenticate_key, authenticate_bearer,
}

module _ (cache : Cache (Option HasPrivilegesResponse)) where
  -- An authentication method is configured.
  abbrev pub IsRestricted : Authenticator cache → Type 0
  IsRestricted a = (a.api_key ≢ none) ⊎ (a.secret_token ≢ [])

  -- The rules by which a client is let in.
  pub data Granted (a : Authenticator cache) (kind token : Bytes) (details : AuthenticationDetails)
      (authorizer : Authorizer) : Type 0 where
    unrestricted :
        a.api_key ≡ none
        → a.secret_token ≡ []
        → details ≡ record { method = method_none; api_key = none }
        → authorizer ≡ allow_auth
        → Granted a kind token details authorizer
    anonymously :
        (anonymous : AnonymousAuth)
        → IsRestricted a
        → kind ≡ []
        → a.anonymous ≡ some anonymous
        → details ≡ record { method = method_anonymous; api_key = none }
        → authorizer ≡ anonymous_auth anonymous
        → Granted a kind token details authorizer
    by_api_key :
        (auth : ApiKeyAuth cache) (privileges : PrivilegesCache cache)
        (key : ApiKeyAuthenticationDetails) (permissions : Permissions)
        → kind ≡ header_api_key
        → a.api_key ≡ some auth
        → authenticate_api_key cache auth.es_client auth.privileges token
          ≡ (privileges, ok (key, permissions))
        → details ≡ record { method = method_api_key; api_key = some key }
        → authorizer ≡ api_key_authorizer permissions
        → Granted a kind token details authorizer
    by_secret_token :
        kind ≡ header_bearer
        → a.secret_token ≢ []
        → token ≡ a.secret_token
        → details ≡ record { method = method_secret_token; api_key = none }
        → authorizer ≡ allow_auth
        → Granted a kind token details authorizer

  abbrev pub outcome :
      Authenticator cache → Bytes → Bytes → Result (AuthenticationDetails × Authorizer)
  outcome a kind token = (authenticate cache a kind token).1

  module _ (a : Authenticator cache) (kind token : Bytes) {details : AuthenticationDetails}
      {authorizer : Authorizer} where
    missing-Granted :
        IsRestricted a
        → kind ≡ []
        → authenticate_missing cache a.anonymous ≡ ok (details, authorizer)
        → Granted a kind token details authorizer
    unfolding authenticate_missing
    missing-Granted r k h = elim (Option-cases a.anonymous) [
      | inl e ↦ absurd (ground arith)
      | inr (anonymous, e) ↦ anonymously anonymous r k e (ground arith) (ground arith)
    ]

    api_key-Granted :
        kind ≡ header_api_key
        → (authenticate_key cache a a.api_key token).1 ≡ ok (details, authorizer)
        → Granted a kind token details authorizer
    unfolding authenticate_key
    api_key-Granted k h = elim (Option-cases a.api_key) [
      | inl e ↦ absurd (ground arith)
      | inr (auth, e) ↦
          elim (Result-cases (authenticate_api_key cache auth.es_client auth.privileges token).1) [
            | inl ((key, permissions), r) ↦
                by_api_key auth (authenticate_api_key cache auth.es_client auth.privileges token).0
                  key permissions k e (ground arith) (ground arith) (ground arith)
            | inr (x, r) ↦ absurd (ground arith)
          ]
    ]

    bearer-Granted :
        kind ≡ header_bearer
        → authenticate_bearer cache a.secret_token token ≡ ok (details, authorizer)
        → Granted a kind token details authorizer
    unfolding authenticate_bearer
    bearer-Granted k h = elim (List-cases a.secret_token) [
      | inl e ↦ absurd (ground arith)
      | inr n ↦
          by_secret_token k n (ground (arith, bytes_eq_iff a.secret_token token)) (ground arith)
            (ground arith)
    ]

    restricted-Granted :
        IsRestricted a
        → outcome a kind token ≡ ok (details, authorizer)
        → Granted a kind token details authorizer
    unfolding authenticate
    restricted-Granted r h = elim (List-cases kind) [
      | inl e ↦ missing-Granted r e (ground arith)
      | inr present ↦ elim (Bool-cases (bytes_eq kind header_api_key)) [
        | inl e ↦ api_key-Granted ((bytes_eq_iff kind header_api_key).0 e) (ground arith)
        | inr not_key ↦ elim (Bool-cases (bytes_eq kind header_bearer)) [
          | inl e ↦ bearer-Granted ((bytes_eq_iff kind header_bearer).0 e) (ground arith)
          | inr not_bearer ↦ absurd (ground arith)
        ]
      ]
    ]

    Granted-of_ok :
        outcome a kind token ≡ ok (details, authorizer) → Granted a kind token details authorizer
    unfolding authenticate
    Granted-of_ok h = elim (Option-cases a.api_key) [
      | inr (auth, e) ↦ restricted-Granted (inl (λ n. cc)) h
      | inl e ↦ elim (List-cases a.secret_token) [
        | inr n ↦ restricted-Granted (inr n) h
        | inl s ↦ unrestricted e s (ground arith) (ground arith)
      ]
    ]

    ok_of_Granted :
        Granted a kind token details authorizer → outcome a kind token ≡ ok (details, authorizer)
    unfolding authenticate
    ok_of_Granted (unrestricted p q d z) = ground arith
    ok_of_Granted (anonymously anonymous r k e d z) = ground arith
    ok_of_Granted (by_api_key auth privileges key permissions k e r d z) = ground arith
    ok_of_Granted (by_secret_token k e t d z) = ground (arith, bytes_eq_iff a.secret_token token)

  -- A client is authenticated, with these details and this authorizer, exactly when one of the four
  -- documented rules lets it in.
  pub authenticate-Granted_iff :
      (a : Authenticator cache) (kind token : Bytes) (details : AuthenticationDetails)
      (authorizer : Authorizer)
      → (outcome a kind token ≡ ok (details, authorizer)) ↔ Granted a kind token details authorizer
  authenticate-Granted_iff a kind token details authorizer =
      (Granted-of_ok a kind token, ok_of_Granted a kind token)
