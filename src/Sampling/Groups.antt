-- ===== src/Sampling/Groups.antt =====
-- sampling/groups.go: the trace groups, and how a root transaction finds its own.
pub mod Lookup
pub mod Kept
pub mod Traces
use apm_server.Prelude.{
  ℕ, zero, suc, ◌+◌, String, Option, none, some, Bool, true, false, ◌&&◌, ◌||◌, List, [], ◌∷◌, ◌==◌,
  str_eq, string_eq, if◌then◌else◌, pos, get_elem?, set, is_empty, nat_eq,
}
use apm_server.Prelude.Maps.{lookup, insert}
use apm_server.Model.Float64.{Float64}
use apm_server.Model.Event.{ApmEvent, Transaction}
use apm_server.Sampling.Reservoir.{Reservoir}
use apm_server.Sampling.Policies.{PolicyCriteria, Policy}

pub record TraceGroup (F : Type 0) : Type 0 where
  pub sampling_fraction : F
  pub reservoir : Reservoir F
  pub total : ℕ
  pub ingest_rate : F

-- `policyGroup`: a static policy has one group and no map.
pub record PolicyGroup (F : Type 0) : Type 0 where
  pub policy : Policy F
  pub g : Option (TraceGroup F)
  pub dynamic : List (String × TraceGroup F)

pub record TraceGroups (F : Type 0) : Type 0 where
  pub ingest_rate_decay_factor : F
  pub max_dynamic_service_groups : ℕ
  pub policy_groups : List (PolicyGroup F)
  pub num_dynamic_service_groups : ℕ

abbrev pub min_reservoir_size : ℕ
min_reservoir_size = 1000

pub data GroupError : Type 0 where
  too_many_trace_groups no_matching_policy : GroupError

-- A pointer to a group: the place of its policy, and its service if it is dynamic.
pub data GroupPointer : Type 0 where
  static : ℕ → GroupPointer
  dynamic_for : ℕ → String → GroupPointer

pub data Found : Type 0 where
  group : GroupPointer → Found
  failed : GroupError → Found

unfoldable pub field_matches : String → String → Bool
field_matches criterion text = str_eq criterion "" || str_eq criterion text

-- `match`
unfoldable pub criteria_match : {F : Type 0} → PolicyCriteria → ApmEvent F → Transaction F → Bool
unfolding field_matches
criteria_match c event tx =
    field_matches c.service_name event.service.name
    && field_matches c.service_environment event.service.environment
    && field_matches c.trace_outcome event.outcome
    && field_matches c.trace_name tx.name

module _ (fl : Float64) where
  open fl use {F, of_int}

  unfoldable pub new_trace_group : F → TraceGroup F
  new_trace_group sampling_fraction = record {
    sampling_fraction = sampling_fraction;
    reservoir = record { items = []; capacity = min_reservoir_size };
    total = 0;
    ingest_rate = of_int (pos 0);
  }

  unfoldable pub policy_group : Policy F → PolicyGroup F
  unfolding new_trace_group
  policy_group policy = record {
    policy = policy;
    g =
        if str_eq policy.criteria.service_name ""
        then none
        else some (new_trace_group policy.sample_rate);
    dynamic = [];
  }

  unfoldable pub policy_groups_of : List (Policy F) → List (PolicyGroup F)
  policy_groups_of [] = []
  policy_groups_of (p ∷ ps) = policy_group p ∷ policy_groups_of ps

  unfoldable pub new_trace_groups : List (Policy F) → ℕ → F → TraceGroups F
  unfolding policy_groups_of
  new_trace_groups policies max_dynamic_service_groups ingest_rate_decay_factor = record {
    ingest_rate_decay_factor = ingest_rate_decay_factor;
    max_dynamic_service_groups = max_dynamic_service_groups;
    policy_groups = policy_groups_of policies;
    num_dynamic_service_groups = 0;
  }

  -- The loop of `getTraceGroup`: the place of the first policy that matches, and the policy's groups.
  unfoldable pub find_policy :
      List (PolicyGroup F) → ApmEvent F → Transaction F → Option (ℕ × PolicyGroup F)
  find_policy [] event tx = none
  find_policy (pg ∷ pgs) event tx = elim (criteria_match pg.policy.criteria event tx) [
    | true ↦ some (0, pg)
    | false ↦ elim (find_policy pgs event tx) [
      | none ↦ none
      | some found ↦ some (suc found.0, found.1)
    ]
  ]

  -- The group of a service under a policy without a service name.
  unfoldable pub get_dynamic : TraceGroups F → ℕ → PolicyGroup F → String → TraceGroups F × Found
  get_dynamic gs i pg service_name = elim (lookup service_name pg.dynamic) [
    | some g ↦ (gs, group (dynamic_for i service_name))
    | none ↦
        if gs.num_dynamic_service_groups == gs.max_dynamic_service_groups
        then (gs, failed too_many_trace_groups)
        else (
          record gs {
            num_dynamic_service_groups = gs.num_dynamic_service_groups + 1;
            policy_groups = set gs.policy_groups i (record pg {
              dynamic = insert service_name (new_trace_group pg.policy.sample_rate) pg.dynamic;
            });
          },
          group (dynamic_for i service_name),
        )
  ]

  unfoldable pub get_from_policy :
      TraceGroups F → Option (ℕ × PolicyGroup F) → String → TraceGroups F × Found
  unfolding get_dynamic
  get_from_policy gs none service_name = (gs, failed no_matching_policy)
  get_from_policy gs (some (i, pg)) service_name = elim pg.g [
    | some g ↦ (gs, group (static i))
    | none ↦ get_dynamic gs i pg service_name
  ]

  -- `getTraceGroup`
  unfoldable pub get_trace_group :
      TraceGroups F → ApmEvent F → Transaction F → TraceGroups F × Found
  unfolding find_policy get_from_policy
  get_trace_group gs event tx =
      get_from_policy gs (find_policy gs.policy_groups event tx) event.service.name

  -- The group behind a pointer.
  unfoldable pub group_at : List (PolicyGroup F) → GroupPointer → Option (TraceGroup F)
  group_at pgs (static i) = elim (get_elem? pgs i) [ none ↦ none | some pg ↦ pg.g ]
  group_at pgs (dynamic_for i service_name) = elim (get_elem? pgs i) [
    | none ↦ none
    | some pg ↦ lookup service_name pg.dynamic
  ]

  -- What stands behind a pointer is overwritten.
  unfoldable pub update_at :
      List (PolicyGroup F) → GroupPointer → TraceGroup F → List (PolicyGroup F)
  update_at pgs (static i) g = elim (get_elem? pgs i) [
    | none ↦ pgs
    | some pg ↦ set pgs i (record pg { g = some g })
  ]
  update_at pgs (dynamic_for i service_name) g = elim (get_elem? pgs i) [
    | none ↦ pgs
    | some pg ↦ set pgs i (record pg { dynamic = insert service_name g pg.dynamic })
  ]
