-- ===== src/Sampling/Groups/Lookup.antt =====
-- Under a validated configuration every root transaction has a policy, and the number of dynamic
-- groups stays within its limit.
use apm_server.Prelude.{
  ℕ, zero, suc, ◌+◌, ◌≤◌, ◌≡◌, refl, sym, ap, ◌∙◌, none, some, Bool, true, false, ◌||◌, List, [],
  ◌∷◌, ◌==◌, string_eq, get_elem?, set, length, nat_eq, arith, inl, inr, Option-cases, Bool-cases,
  get_elem?-set_self,
}
use apm_server.Prelude.Maps.{lookup, insert, length-insert_new, lookup-insert_self}
use apm_server.Model.Float64.{Float64}
use apm_server.Model.Event.{ApmEvent, Transaction}
use apm_server.Sampling.Policies.{
  PolicyCriteria, Policy, is_default, LocalSamplingConfig, nonneg, validate_policy, check_policies,
  validate_checked, validate_local,
}
use apm_server.Sampling.Groups.{
  group_at, TraceGroup, PolicyGroup, TraceGroups, too_many_trace_groups, GroupPointer, static,
  dynamic_for, Found, group, failed, field_matches, criteria_match, new_trace_group, policy_group,
  policy_groups_of, new_trace_groups, find_policy, get_dynamic, get_from_policy, get_trace_group,
}

module _ (fl : Float64) where
  open fl use {F}

  abbrev pub has_default : List (PolicyGroup F) → Bool
  has_default [] = false
  has_default (pg ∷ pgs) = is_default pg.policy.criteria || has_default pgs

  abbrev pub count_dynamic : List (PolicyGroup F) → ℕ
  count_dynamic [] = 0
  count_dynamic (pg ∷ pgs) = length pg.dynamic + count_dynamic pgs

  -- One of the policies is the default one, and the counter is the number of dynamic groups, within
  -- its limit.
  pub record Sound (gs : TraceGroups F) : Type 0 where
    pub default : has_default gs.policy_groups ≡ true
    pub counted : count_dynamic gs.policy_groups ≡ gs.num_dynamic_service_groups
    pub limited : gs.num_dynamic_service_groups ≤ gs.max_dynamic_service_groups

  default_matches :
      (c : PolicyCriteria) (event : ApmEvent F) (tx : Transaction F)
      → is_default c ≡ true
      → criteria_match c event tx ≡ true
  unfolding is_default criteria_match field_matches
  default_matches c event tx h = ground arith

  pub find_policy_total :
      (pgs : List (PolicyGroup F)) (event : ApmEvent F) (tx : Transaction F)
      → has_default pgs ≡ true
      → (r : ℕ × PolicyGroup F) × (find_policy fl pgs event tx ≡ some r)
        × (get_elem? pgs r.0 ≡ some r.1)
  unfolding find_policy
  find_policy_total [] event tx h = cc
  find_policy_total (pg ∷ pgs) event tx h =
      elim (Bool-cases (criteria_match pg.policy.criteria event tx)) [
        | inl p ↦ ((0, pg), rw (p, find_policy), refl)
        | inr p ↦
            let rest : has_default pgs ≡ true =
              ground (arith, default_matches pg.policy.criteria event tx) in
            let (r, found, at) = find_policy_total pgs event tx rest in
            ((suc r.0, r.1), rw (p, found, find_policy), at)
      ]

  pub count_dynamic-set :
      (pgs : List (PolicyGroup F)) (i : ℕ) (pg pg' : PolicyGroup F)
      → get_elem? pgs i ≡ some pg
      → count_dynamic (set pgs i pg') + length pg.dynamic ≡ count_dynamic pgs + length pg'.dynamic
  count_dynamic-set [] i pg pg' h = cc
  count_dynamic-set (x ∷ pgs) zero pg pg' h =
      let same : length x.dynamic ≡ length pg.dynamic = ground arith in omega (arith, same)
  count_dynamic-set (x ∷ pgs) (suc i) pg pg' h = omega (arith, count_dynamic-set pgs i pg pg' h)

  pub has_default-set :
      (pgs : List (PolicyGroup F)) (i : ℕ) (pg pg' : PolicyGroup F)
      → get_elem? pgs i ≡ some pg
      → is_default pg'.policy.criteria ≡ is_default pg.policy.criteria
      → has_default (set pgs i pg') ≡ has_default pgs
  has_default-set [] i pg pg' h e = cc
  has_default-set (x ∷ pgs) zero pg pg' h e =
      let same : x ≡ pg = cc in
      ap (λ b. b || has_default pgs) (e ∙ ap (λ y. is_default y.policy.criteria) (sym same))
  has_default-set (x ∷ pgs) (suc i) pg pg' h e =
      ap (λ b. is_default x.policy.criteria || b) (has_default-set pgs i pg pg' h e)

  -- What a lookup gives: a group that is there, or the one error for a full set of dynamic groups.
  pub data Looked (gs gs' : TraceGroups F) (event : ApmEvent F) : Found → Type 0 where
    there :
        (p : GroupPointer) (g : TraceGroup F)
        → group_at fl gs'.policy_groups p ≡ some g
        → Looked gs gs' event (group p)
    crowded :
        gs' ≡ gs
        → gs.num_dynamic_service_groups ≡ gs.max_dynamic_service_groups
        → Looked gs gs' event (failed too_many_trace_groups)

  abbrev pub Outcome : TraceGroups F → ApmEvent F → TraceGroups F × Found → Type 0
  Outcome gs event r = Sound r.0 × Looked gs r.0 event r.1

  get_dynamic-Outcome :
      (gs : TraceGroups F) (i : ℕ) (pg : PolicyGroup F) (event : ApmEvent F)
      → Sound gs
      → get_elem? gs.policy_groups i ≡ some pg
      → Outcome gs event (get_dynamic fl gs i pg event.service.name)
  unfolding get_dynamic group_at
  get_dynamic-Outcome gs i pg event v at =
      elim (Option-cases (lookup event.service.name pg.dynamic)) [
        | inr (g, known) ↦
            rw (known, get_dynamic)
              (v, there (dynamic_for i event.service.name) g (rw (at, known, group_at)))
        | inl new ↦
            elim (Bool-cases (gs.num_dynamic_service_groups == gs.max_dynamic_service_groups)) [
              | inl full ↦ rw (new, full, get_dynamic) (v, crowded refl (ground arith))
              | inr room ↦
                  let fresh = new_trace_group fl pg.policy.sample_rate in
                  let pg' = record pg { dynamic = insert event.service.name fresh pg.dynamic } in
                  let added = length-insert_new event.service.name fresh pg.dynamic new in
                  rw (new, room, get_dynamic)
                    (
                      record {
                        default = has_default-set gs.policy_groups i pg pg' at refl ∙ v.default;
                        counted = omega (
                          arith,
                          count_dynamic-set gs.policy_groups i pg pg' at,
                          added,
                          v.counted,
                        );
                        limited = ground (arith, v.limited);
                      },
                      there (dynamic_for i event.service.name) fresh (
                          rw (
                            get_elem?-set_self gs.policy_groups i pg' pg at,
                            lookup-insert_self event.service.name fresh pg.dynamic,
                            group_at,
                          )),
                    )
            ]
      ]

  get_from_policy-Outcome :
      (gs : TraceGroups F) (i : ℕ) (pg : PolicyGroup F) (event : ApmEvent F)
      → Sound gs
      → get_elem? gs.policy_groups i ≡ some pg
      → Outcome gs event (get_from_policy fl gs (some (i, pg)) event.service.name)
  unfolding get_from_policy group_at
  get_from_policy-Outcome gs i pg event v at = elim (Option-cases pg.g) [
    | inl n ↦ rw (n, get_from_policy) (get_dynamic-Outcome gs i pg event v at)
    | inr (g, s) ↦ rw (s, get_from_policy) (v, there (static i) g (rw (at, s, group_at)))
  ]

  -- Looking up the group of a root transaction in sound groups always finds a policy. It gives a
  -- group that is there afterwards, except that it fails, changing nothing, when the limit of dynamic
  -- groups has been reached. The groups stay sound.
  pub get_trace_group-Outcome :
      (gs : TraceGroups F) (event : ApmEvent F) (tx : Transaction F)
      → Sound gs
      → Outcome gs event (get_trace_group fl gs event tx)
  unfolding get_trace_group
  get_trace_group-Outcome gs event tx v =
      let ((i, pg), found, at) = find_policy_total gs.policy_groups event tx v.default in
      rw (found, get_trace_group) (get_from_policy-Outcome gs i pg event v at)

  has_default-checked :
      (ps : List (Policy F)) (b : Bool)
      → check_policies fl ps b ≡ inr true
      → (has_default (policy_groups_of fl ps) || b) ≡ true
  unfolding check_policies policy_groups_of policy_group
  has_default-checked [] b h = ground arith
  has_default-checked (p ∷ ps) b h = elim (Option-cases (validate_policy fl p)) [
    | inr (reason, e) ↦ ground arith
    | inl e ↦
        let rest : (has_default (policy_groups_of fl ps) || (is_default p.criteria || b)) ≡ true =
          has_default-checked ps (is_default p.criteria || b) (ground arith) in
        ground arith
  ]

  none_dynamic : (ps : List (Policy F)) → count_dynamic (policy_groups_of fl ps) ≡ 0
  unfolding policy_groups_of policy_group
  none_dynamic [] = refl
  none_dynamic (p ∷ ps) = omega (arith, none_dynamic ps)

  checked_of_valid :
      (config : LocalSamplingConfig F)
      → validate_local fl config ≡ none
      → check_policies fl config.policies false ≡ inr true
  unfolding validate_local validate_checked
  checked_of_valid config valid = ground arith

  -- The trace groups of a configuration that passes its validation are sound.
  pub new_trace_groups-Sound :
      (config : LocalSamplingConfig F)
      → validate_local fl config ≡ none
      → Sound (
          new_trace_groups fl config.policies
            (nonneg config.max_dynamic_services)
            config.ingest_rate_decay_factor)
  unfolding new_trace_groups
  new_trace_groups-Sound config valid = record {
    default =
        ground (arith, has_default-checked config.policies false (checked_of_valid config valid));
    counted = none_dynamic config.policies;
    limited = omega arith;
  }
