-- ===== src/Auth/Types.antt =====
-- The shared types of beater/auth/authenticator.go, and the errors of the package.
use apm_server.Prelude.{ℕ, String, Option, Bool, true, false, Bytes, ◌≡◌, refl, ◌⊎◌, inl, inr}

-- `Method`: how a client was authenticated.
pub data Method : Type 0 where
  method_none method_api_key method_secret_token method_anonymous : Method

-- `Action`: the three constants of the source, and any other text.
pub data Action : Type 0 where
  agent_config event_ingest sourcemap_upload : Action
  other : String → Action

pub record Resource : Type 0 where
  pub agent_name : String
  pub service_name : String

pub record ApiKeyAuthenticationDetails : Type 0 where
  pub id : Bytes
  pub username : String

pub record AuthenticationDetails : Type 0 where
  pub method : Method
  pub api_key : Option ApiKeyAuthenticationDetails

-- How a request to Elasticsearch fails: `*es.Error` with its status code, or without an answer.
pub data ServerError : Type 0 where
  status : ℕ → ServerError
  transport : String → ServerError

-- The errors that the package returns. `auth_failed` is `ErrAuthFailed` as it stands; the next
-- four wrap it with a reason. `unauthorized` and its companions wrap `ErrUnauthorized`.
pub data Error : Type 0 where
  auth_failed auth_missing improper_encoding improper_format : Error
  unknown_header : Bytes → Error
  unauthorized : Error
  service_not_permitted agent_not_permitted action_not_permitted : String → Error
  sourcemap_not_permitted : Error
  unknown_action : Action → Error
  no_authorizer limit_reached : Error
  server_error : ServerError → Error

-- `errors.Is(err, ErrAuthFailed)`
unfoldable pub is_auth_failed : Error → Bool
is_auth_failed auth_failed = true
is_auth_failed auth_missing = true
is_auth_failed improper_encoding = true
is_auth_failed improper_format = true
is_auth_failed (unknown_header kind) = true
is_auth_failed _ = false

-- `errors.Is(err, ErrUnauthorized)`
unfoldable pub is_unauthorized : Error → Bool
is_unauthorized unauthorized = true
is_unauthorized (service_not_permitted name) = true
is_unauthorized (agent_not_permitted name) = true
is_unauthorized (action_not_permitted name) = true
is_unauthorized sourcemap_not_permitted = true
is_unauthorized _ = false

pub data Result {ℓ} (A : Type ℓ) : Type ℓ where
  ok : A → Result A
  err : Error → Result A

infixl 5 ◌>>=◌
abbrev pub ◌>>=◌ {ℓ κ} : {A : Type ℓ} {B : Type κ} → Result A → (A → Result B) → Result B
ok a >>= f = f a
err e >>= f = err e

pub Result-cases {ℓ} :
    {A : Type ℓ} (r : Result A) → ((a : A) × (r ≡ ok a)) ⊎ ((e : Error) × (r ≡ err e))
Result-cases (ok a) = inl (a, refl)
Result-cases (err e) = inr (e, refl)
