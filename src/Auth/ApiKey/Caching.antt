-- ===== src/Auth/ApiKey/Caching.antt =====
-- The privileges cache of beater/auth/apikey.go: what an answer leaves behind for later requests.
use apm_server.Prelude.{
  ◌+◌, ◌≤◌, ◌≡◌, ap, sym, subst, ◌⊎◌, inl, inr, Option, none, some, Bytes, arith,
}
use apm_server.Auth.Types.{
  Result, ok, err, auth_failed, ServerError, status, transport, ApiKeyAuthenticationDetails,
}
use apm_server.Auth.Header.{codes}
use apm_server.Auth.ApiKey.{
  Permissions, HasPrivilegesResponse, Cache, CacheLaws, Server, PrivilegesCache, is_full, cache_key,
  store_answer, request_for, has_privileges, grant, grant_all, key_id, authenticate_api_key,
  resource_internal, es_has_privileges,
}

module _ (cache : Cache (Option HasPrivilegesResponse)) (laws : CacheLaws cache) where
  open cache use {get, item_count}

  -- The key under which the answer for an API key ID is kept.
  abbrev internal_key : Bytes → Bytes
  internal_key id = cache_key cache id (codes resource_internal)

  store_answer_ok :
      (c : PrivilegesCache cache) (key : Bytes) (answer : HasPrivilegesResponse ⊎ ServerError)
      {c' : PrivilegesCache cache} {r : HasPrivilegesResponse}
      → store_answer cache c key answer ≡ (c', ok r)
      → get c'.cached key ≡ some (some r)
  unfolding store_answer
  store_answer_ok c key (inl info) h = ground (arith, laws.get_self c.cached key (some info))
  store_answer_ok c key (inr (status code)) h = ground arith
  store_answer_ok c key (inr (transport reason)) h = ground arith

  store_answer_failed :
      (c : PrivilegesCache cache) (key : Bytes) (answer : HasPrivilegesResponse ⊎ ServerError)
      {c' : PrivilegesCache cache}
      → store_answer cache c key answer ≡ (c', err auth_failed)
      → get c'.cached key ≡ some none
  unfolding store_answer
  store_answer_failed c key (inl info) h = ground arith
  store_answer_failed c key (inr (status code)) h = ground (arith, laws.get_self c.cached key none)
  store_answer_failed c key (inr (transport reason)) h = ground arith

  store_answer_bound :
      (c : PrivilegesCache cache) (key : Bytes) (answer : HasPrivilegesResponse ⊎ ServerError)
      → item_count c.cached + 1 ≤ c.size
      → item_count (store_answer cache c key answer).0.cached ≤ c.size
  unfolding store_answer
  store_answer_bound c key (inl info) h = ground (arith, laws.count_le c.cached key (some info))
  store_answer_bound c key (inr (status code)) h = ground (arith, laws.count_le c.cached key none)
  store_answer_bound c key (inr (transport reason)) h = ground arith

  module _ (server : Server) (c : PrivilegesCache cache) (id credentials : Bytes) where
    abbrev asked : PrivilegesCache cache × Result HasPrivilegesResponse
    asked = has_privileges cache server c id credentials resource_internal

    -- A request that was answered leaves the answer in the cache.
    has_privileges_ok :
        {c' : PrivilegesCache cache} {r : HasPrivilegesResponse}
        → asked ≡ (c', ok r)
        → get c'.cached (internal_key id) ≡ some (some r)
    unfolding has_privileges
    has_privileges_ok {c'} {r} h = ground (
      arith,
      store_answer_ok c (internal_key id)
          (es_has_privileges server (request_for resource_internal) credentials) {c' = c'} {r = r},
    )

    has_privileges_hit :
        {r : HasPrivilegesResponse}
        → get c.cached (internal_key id) ≡ some (some r)
        → asked ≡ (c, ok r)
    unfolding has_privileges
    has_privileges_hit h = rw (h, has_privileges)

    has_privileges_miss : get c.cached (internal_key id) ≡ some none → asked ≡ (c, err auth_failed)
    unfolding has_privileges
    has_privileges_miss h = rw (h, has_privileges)

    has_privileges_bound : item_count c.cached ≤ c.size → item_count asked.0.cached ≤ c.size
    unfolding has_privileges is_full
    has_privileges_bound h = grind (arith, store_answer_bound)

  grant_all_ok :
      (id : Bytes) (q : PrivilegesCache cache × Result HasPrivilegesResponse)
      {c' : PrivilegesCache cache} {granted : ApiKeyAuthenticationDetails × Permissions}
      → grant_all cache id q ≡ (c', ok granted)
      → (r : HasPrivilegesResponse) × (q ≡ (c', ok r)) × (grant id r ≡ ok granted)
  unfolding grant_all
  grant_all_ok id (c, ok r) h = (r, ground arith, ground arith)
  grant_all_ok id (c, err e) h = absurd (ground arith)

  authenticate_api_key_ok :
      (server : Server) (c : PrivilegesCache cache) (credentials id : Bytes)
      {c' : PrivilegesCache cache} {granted : ApiKeyAuthenticationDetails × Permissions}
      → authenticate_api_key cache server c credentials ≡ (c', ok granted)
      → key_id credentials ≡ ok id
      → (r : HasPrivilegesResponse) × (has_privileges cache server c id credentials
            resource_internal
          ≡ (c', ok r))
        × (grant id r ≡ ok granted)
  unfolding authenticate_api_key
  authenticate_api_key_ok server c credentials id h k =
      grant_all_ok id (has_privileges cache server c id credentials resource_internal)
        (rw (k, authenticate_api_key) at h)

  authenticate_api_key_hit :
      (server : Server) (c : PrivilegesCache cache) (credentials id : Bytes)
      {r : HasPrivilegesResponse} {granted : ApiKeyAuthenticationDetails × Permissions}
      → key_id credentials ≡ ok id
      → has_privileges cache server c id credentials resource_internal ≡ (c, ok r)
      → grant id r ≡ ok granted
      → authenticate_api_key cache server c credentials ≡ (c, ok granted)
  unfolding authenticate_api_key grant_all
  authenticate_api_key_hit server c credentials id {r} {granted} k e g =
      rw (k, authenticate_api_key)
        (subst (λ q. grant_all cache id q ≡ (c, ok granted)) (sym e) (ap (λ x. (c, x)) g))

  -- Once an API key has been accepted, any credentials that name the same key ID are accepted with
  -- the same details and permissions while the answer is cached, whatever secret they carry and
  -- whatever the server would say of them.
  pub authenticate_api_key_replay :
      (server server' : Server) (c : PrivilegesCache cache) (credentials forged id : Bytes)
      {c' : PrivilegesCache cache} {granted : ApiKeyAuthenticationDetails × Permissions}
      → authenticate_api_key cache server c credentials ≡ (c', ok granted)
      → key_id credentials ≡ ok id
      → key_id forged ≡ ok id
      → authenticate_api_key cache server' c' forged ≡ (c', ok granted)
  authenticate_api_key_replay server server' c credentials forged id {c'} h k k' =
      let (r, e, g) = authenticate_api_key_ok server c credentials id h k in
      let kept = has_privileges_ok server c id credentials e in
      authenticate_api_key_hit server' c' forged id k'
        (has_privileges_hit server' c' id forged kept) g

  has_privileges_failed :
      (server : Server) (c : PrivilegesCache cache) (id credentials : Bytes)
      {c' : PrivilegesCache cache}
      → has_privileges cache server c id credentials resource_internal ≡ (c', err auth_failed)
      → get c'.cached (internal_key id) ≡ some none
  unfolding has_privileges
  has_privileges_failed server c id credentials {c'} h = ground (
    arith,
    store_answer_failed c (internal_key id)
        (es_has_privileges server (request_for resource_internal) credentials) {c' = c'},
  )

  -- Once the server has refused some credentials, any credentials that name the same key ID are
  -- refused while that is cached, whatever secret they carry and whatever the server would say.
  pub refused_locks_out :
      (server server' : Server) (c : PrivilegesCache cache) (wrong credentials id : Bytes)
      {c' : PrivilegesCache cache}
      → has_privileges cache server c id wrong resource_internal ≡ (c', err auth_failed)
      → key_id credentials ≡ ok id
      → authenticate_api_key cache server' c' credentials ≡ (c', err auth_failed)
  unfolding authenticate_api_key grant_all
  refused_locks_out server server' c wrong credentials id {c'} h k =
      let kept = has_privileges_failed server c id wrong h in
      rw (k, authenticate_api_key)
        (ap (grant_all cache id) (has_privileges_miss server' c' id credentials kept))

  -- Authentication keeps the number of cached answers within the configured limit, if it is within
  -- it before.
  pub authenticate_api_key_bound :
      (server : Server) (c : PrivilegesCache cache) (credentials : Bytes)
      → item_count c.cached ≤ c.size
      → item_count (authenticate_api_key cache server c credentials).0.cached ≤ c.size
  unfolding authenticate_api_key grant_all
  authenticate_api_key_bound server c credentials h = grind (arith, has_privileges_bound)
