-- ===== src/Auth/ApiKey.antt =====
-- beater/auth/apikey.go, and the request of elasticsearch/security_api.go that it sends.
-- The go-cache library and the Elasticsearch server are parameters.
pub mod Caching
use apm_server.Prelude.{
  ℕ, ◌+◌, ◌≤◌, ◌≡◌, ◌⊎◌, inl, inr, String, Bool, true, false, ◌||◌, List, [], ◌∷◌, ◌++◌, Option,
  none, some, Bytes, leb, ◌==◌, if◌then◌else◌, take, string_eq,
}
use apm_server.Prelude.Maps.{lookup}
use apm_server.Auth.Types.{
  Action, agent_config, event_ingest, sourcemap_upload, other, Resource, Result, ok, err,
  ApiKeyAuthenticationDetails, auth_failed, improper_encoding, improper_format, limit_reached,
  action_not_permitted, unknown_action, ServerError, status, transport, server_error,
}
use apm_server.Auth.Header.{codes, decode_string, index_byte}

-- `es.Permissions`: a map from privilege action to whether it is granted.
abbrev pub Permissions : Type 0
Permissions = List (String × Bool)

pub record Application : Type 0 where
  pub name : String
  pub privileges : List String
  pub resources : List String

pub record HasPrivilegesRequest : Type 0 where
  pub applications : List Application

pub record HasPrivilegesResponse : Type 0 where
  pub username : String
  pub has_all : Bool
  pub application : List (String × List (String × Permissions))

-- What the code uses of github.com/patrickmn/go-cache: an entry that has expired is not found.
pub record Cache (V : Type 0) : Type 1 where
  pub State : Type 0
  pub get : State → Bytes → Option V
  pub set_default : State → Bytes → V → State
  pub item_count : State → ℕ

-- Its documented behaviour, read before any time passes.
pub record CacheLaws {V : Type 0} (cache : Cache V) : Type 0 where
  pub get_self :
      (s : cache.State) (k : Bytes) (v : V) → cache.get (cache.set_default s k v) k ≡ some v
  pub count_le :
      (s : cache.State) (k : Bytes) (v : V)
      → cache.item_count (cache.set_default s k v) ≤ cache.item_count s + 1

abbrev pub application_name : String
application_name = "apm"

abbrev pub resource_internal : String
resource_internal = "-"

abbrev pub privilege_agent_config_read : String
privilege_agent_config_read = "config_agent:read"

abbrev pub privilege_event_write : String
privilege_event_write = "event:write"

abbrev pub privilege_sourcemap_write : String
privilege_sourcemap_write = "sourcemap:write"

abbrev pub all_privilege_actions : List String
all_privilege_actions =
    privilege_agent_config_read ∷ privilege_event_write ∷ privilege_sourcemap_write ∷ []

-- `m[k]` of a map of maps: the zero value, an empty map, where the key is missing.
unfoldable pub map_or_empty {ℓ} : {V : Type ℓ} → String → List (String × List V) → List V
map_or_empty k m = elim (lookup k m) [ none ↦ [] | some v ↦ v ]

unfoldable pub have_any : Permissions → Bool
have_any [] = false
have_any ((_, granted) ∷ rest) = granted || have_any rest

-- `(*apikeyAuthorizer).Authorize`: the resource is not looked at.
check_permission : Permissions → String → Result (Unit {0})
check_permission permissions privilege = elim (lookup privilege permissions) [
  | some true ↦ ok tt
  | some false ↦ err (action_not_permitted privilege)
  | none ↦ err (action_not_permitted privilege)
]

unfoldable pub authorize_api_key : Permissions → Action → Resource → Result (Unit {0})
unfolding check_permission
authorize_api_key permissions agent_config _ =
    check_permission permissions privilege_agent_config_read
authorize_api_key permissions event_ingest _ = check_permission permissions privilege_event_write
authorize_api_key permissions sourcemap_upload _ =
    check_permission permissions privilege_sourcemap_write
authorize_api_key permissions (other name) _ = err (unknown_action (other name))

-- The Elasticsearch server behind the client: the request and the `Authorization` header that is
-- sent, if any, to its answer.
abbrev pub Server : Type 0
Server = HasPrivilegesRequest → Option Bytes → HasPrivilegesResponse ⊎ ServerError

-- `es.HasPrivileges`
unfoldable pub es_has_privileges :
    Server → HasPrivilegesRequest → Bytes → HasPrivilegesResponse ⊎ ServerError
es_has_privileges server privileges [] = server privileges none
es_has_privileges server privileges (b ∷ bs) = server privileges (some (codes "ApiKey " ++ b ∷ bs))

unfoldable pub request_for : String → HasPrivilegesRequest
request_for resource = record {
  applications =
      record {
        name = application_name;
        privileges = all_privilege_actions;
        resources = resource ∷ [];
      }
      ∷ [];
}

-- The end of `authenticate`: any privilege on the internal resource will do.
unfoldable pub grant :
    Bytes → HasPrivilegesResponse → Result (ApiKeyAuthenticationDetails × Permissions)
unfolding map_or_empty have_any
grant id response =
    let permissions =
      map_or_empty resource_internal (map_or_empty application_name response.application) in
    if have_any permissions
    then ok (record { id = id; username = response.username }, permissions)
    else err auth_failed

-- The API key's ID: what stands before the first colon of the decoded credentials.
unfoldable pub key_id : Bytes → Result Bytes
unfolding decode_string index_byte
key_id credentials = elim (decode_string credentials) [
  | none ↦ err improper_encoding
  | some decoded ↦ elim (index_byte b':' decoded) [
    | none ↦ err improper_format
    | some colon ↦ ok (take colon decoded)
  ]
]

module _ (cache : Cache (Option HasPrivilegesResponse)) where
  open cache use {State, get, set_default, item_count}

  -- `privilegesCache`: the cache and its size limit.
  pub record PrivilegesCache : Type 0 where
    pub cached : State
    pub size : ℕ

  unfoldable pub is_full : PrivilegesCache → Bool
  is_full c = leb c.size (item_count c.cached)

  unfoldable pub add : PrivilegesCache → Bytes → Option HasPrivilegesResponse → PrivilegesCache
  add c key privileges = record c { cached = set_default c.cached key privileges }

  unfoldable pub cache_key : Bytes → Bytes → Bytes
  cache_key id resource = id ++ b'_' ∷ resource

  -- What `hasPrivileges` makes of the server's answer.
  unfoldable pub store_answer :
      PrivilegesCache
      → Bytes
      → HasPrivilegesResponse ⊎ ServerError
      → PrivilegesCache × Result HasPrivilegesResponse
  unfolding add
  store_answer c key (inl info) = (add c key (some info), ok info)
  store_answer c key (inr (status code)) =
      if code == 401
      then (add c key none, err auth_failed)
      else (c, err (server_error (status code)))
  store_answer c key (inr (transport reason)) = (c, err (server_error (transport reason)))

  unfoldable pub has_privileges :
      Server
      → PrivilegesCache
      → Bytes
      → Bytes
      → String
      → PrivilegesCache × Result HasPrivilegesResponse
  has_privileges server c id credentials resource =
      let key = cache_key id (codes resource) in
      elim (get c.cached key) [
        | some (some response) ↦ (c, ok response)
        | some none ↦ (c, err auth_failed)
        | none ↦
            if is_full c
            then (c, err limit_reached)
            else store_answer c key (es_has_privileges server (request_for resource) credentials)
      ]

  unfoldable pub grant_all :
      Bytes
      → PrivilegesCache × Result HasPrivilegesResponse
      → PrivilegesCache × Result (ApiKeyAuthenticationDetails × Permissions)
  grant_all id (c, ok response) = (c, grant id response)
  grant_all id (c, err e) = (c, err e)

  unfoldable pub authenticate_api_key :
      Server
      → PrivilegesCache
      → Bytes
      → PrivilegesCache × Result (ApiKeyAuthenticationDetails × Permissions)
  authenticate_api_key server c credentials = elim (key_id credentials) [
    | err e ↦ (c, err e)
    | ok id ↦ grant_all id (has_privileges server c id credentials resource_internal)
  ]
