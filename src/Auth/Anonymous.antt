-- ===== src/Auth/Anonymous.antt =====
-- beater/auth/anonymous.go: access without credentials, limited by service and agent name.
pub mod Access
use apm_server.Prelude.{
  String, string_eq, Bool, true, false, ◌&&◌, not, List, [], ◌∷◌, Option, none, some, is_empty,
  if◌then◌else◌,
}
use apm_server.Prelude.Maps.{lookup, insert}
use apm_server.Auth.Types.{
  Action, agent_config, event_ingest, sourcemap_upload, other, Resource, Result, ok, err,
  service_not_permitted, agent_not_permitted, sourcemap_not_permitted, unknown_action,
}

pub record AnonymousAuth : Type 0 where
  pub allowed_agents : List (String × Bool)
  pub allowed_services : List (String × Bool)

-- The two loops of `newAnonymousAuth`.
unfoldable pub add_names : List (String × Bool) → List String → List (String × Bool)
add_names m [] = m
add_names m (name ∷ names) = add_names (insert name true m) names

unfoldable pub new_anonymous_auth : List String → List String → AnonymousAuth
new_anonymous_auth allow_agent allow_service = record {
  allowed_agents = add_names [] allow_agent;
  allowed_services = add_names [] allow_service;
}

-- `m[name]`, false where the key is missing.
unfoldable pub flag : List (String × Bool) → String → Bool
flag m name = elim (lookup name m) [ none ↦ false | some b ↦ b ]

unfoldable pub authorize_anonymous : AnonymousAuth → Action → Resource → Result (Unit {0})
authorize_anonymous a agent_config resource =
    if not (is_empty a.allowed_services) && not (flag a.allowed_services resource.service_name)
    then err (service_not_permitted resource.service_name)
    else ok tt
authorize_anonymous a event_ingest resource =
    if not (is_empty a.allowed_services) && not (flag a.allowed_services resource.service_name)
    then err (service_not_permitted resource.service_name)
    else (if not (is_empty a.allowed_agents) && not (flag a.allowed_agents resource.agent_name)
        then err (agent_not_permitted resource.agent_name)
        else ok tt)
authorize_anonymous a sourcemap_upload resource = err sourcemap_not_permitted
authorize_anonymous a (other name) resource = err (unknown_action (other name))
