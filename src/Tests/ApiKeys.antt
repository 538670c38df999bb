-- ===== src/Tests/ApiKeys.antt =====
-- API keys: a server that accepts one key, and one that accepts none.
use apm_server.Prelude.{
  ◌≡◌, refl, ◌≤◌, [], ◌∷◌, Option, none, some, Bool, true, false, Bytes, bytes_eq, inl, inr,
  if◌then◌else◌, length, arith,
}
use apm_server.Prelude.Maps.{lookup, insert}
use apm_server.Auth.Types.{ok, err, auth_failed, status, ApiKeyAuthenticationDetails}
use apm_server.Auth.Header.{codes}
use apm_server.Auth.ApiKey.{
  Cache, Server, HasPrivilegesResponse, Permissions, PrivilegesCache, privilege_event_write,
  resource_internal, application_name, key_id, has_privileges, authenticate_api_key, grant_all,
  store_answer, es_has_privileges, is_full, cache_key, grant,
}
use apm_server.Auth.ApiKey.Caching.{
  authenticate_api_key_replay, refused_locks_out, authenticate_api_key_bound,
}
use apm_server.Tests.Fixtures.{map_cache, map_cache_laws}

abbrev answers : Cache (Option HasPrivilegesResponse)
answers = map_cache

abbrev writer : Permissions
writer = (privilege_event_write, true) ∷ []

abbrev accepted : HasPrivilegesResponse
accepted = record {
  username = "agent";
  has_all = false;
  application = (application_name, (resource_internal, writer) ∷ []) ∷ [];
}

-- base64 of `id:key` and of `id:x`.
abbrev right : Bytes
right = codes "aWQ6a2V5"

abbrev forged : Bytes
forged = codes "aWQ6eA=="

is_right : Option Bytes → Bool
is_right none = false
is_right (some header) = bytes_eq header (codes "ApiKey aWQ6a2V5")

unfoldable accepting : Server
unfolding is_right
accepting request header = if is_right header then inl accepted else inr (status 401)

abbrev rejecting : Server
rejecting request header = inr (status 401)

abbrev start : PrivilegesCache answers
start = record { cached = []; size = 10 }

abbrev key : Bytes
key = codes "id_-"

abbrev remembered : PrivilegesCache answers
remembered = record { cached = (key, some accepted) ∷ []; size = 10 }

abbrev remembered_refusal : PrivilegesCache answers
remembered_refusal = record { cached = (key, none) ∷ []; size = 10 }

abbrev granted : ApiKeyAuthenticationDetails × Permissions
granted = (record { id = codes "id"; username = "agent" }, writer)

right_id : key_id right ≡ ok (codes "id")
unfolding key_id
right_id = refl

forged_id : key_id forged ≡ ok (codes "id")
unfolding key_id
forged_id = refl

right_accepted : authenticate_api_key answers accepting start right ≡ (remembered, ok granted)
unfolding authenticate_api_key key_id has_privileges lookup is_full cache_key store_answer
    es_has_privileges accepting insert grant_all grant
right_accepted = refl

authenticate_api_key_replay_example :
    authenticate_api_key answers rejecting remembered forged ≡ (remembered, ok granted)
authenticate_api_key_replay_example =
    authenticate_api_key_replay answers map_cache_laws accepting rejecting start right forged
      (codes "id") {c' = remembered} {granted = granted} right_accepted right_id forged_id

forged_refused :
    has_privileges answers accepting start (codes "id") forged resource_internal
    ≡ (remembered_refusal, err auth_failed)
unfolding has_privileges lookup is_full cache_key store_answer es_has_privileges accepting insert
forged_refused = refl

refused_locks_out_example :
    authenticate_api_key answers accepting remembered_refusal right
    ≡ (remembered_refusal, err auth_failed)
refused_locks_out_example =
    refused_locks_out answers map_cache_laws accepting accepting start forged right (codes "id")
      {c' = remembered_refusal} forged_refused right_id

authenticate_api_key_bound_example :
    length (authenticate_api_key answers accepting start right).0.cached ≤ 10
authenticate_api_key_bound_example =
    authenticate_api_key_bound answers map_cache_laws accepting start right (omega arith)
