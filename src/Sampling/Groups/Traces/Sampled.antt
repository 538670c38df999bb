-- ===== src/Sampling/Groups/Traces/Sampled.antt =====
-- The sampling of a root transaction in sound trace groups.
use apm_server.Prelude.{
  ℕ, ◌+◌, ◌≡◌, ◌≢◌, refl, String, some, Bool, false, ◌⊎◌, inl, inr, pos, get_elem?, All-set,
  All-get_elem?, arith, Bool-cases, Option-cases, string_eq, ◌==◌,
}
use apm_server.Prelude.Maps.{lookup, insert, insert-All}
use apm_server.Model.Float64.{Float64}
use apm_server.Model.Event.{ApmEvent, Transaction}
use apm_server.Sampling.Reservoir.Bounds.{sample-Sampled}
use apm_server.Sampling.Groups.{
  TraceGroup, PolicyGroup, TraceGroups, GroupError, too_many_trace_groups, no_matching_policy,
  Found, new_trace_group, get_dynamic, get_from_policy, get_trace_group, update_at,
}
use apm_server.Sampling.Groups.Lookup.{
  Sound, Looked, there, crowded, find_policy_total, get_trace_group-Outcome,
}
use apm_server.Sampling.Groups.Kept.{
  GroupIsValid, PolicyAll, AllValid, new_trace_group-GroupIsValid, group_at-P, update_at-P,
  update_at-Sound,
}
use apm_server.Sampling.Groups.Traces.{seconds, sample_group, sample_found, sample_trace}

module _ (fl : Float64) where
  open fl use {F, of_int, eqb}

  sample_group-GroupIsValid :
      (g : TraceGroup F) (u : F) (event : ApmEvent F)
      → GroupIsValid fl g
      → (g' : TraceGroup F) × (admitted : Bool) × (sample_group fl g u event ≡ some (g', admitted))
        × GroupIsValid fl g'
  unfolding sample_group
  sample_group-GroupIsValid g u event v =
      elim (Bool-cases (eqb g.sampling_fraction (of_int (pos 0)))) [
        | inl never ↦ (g, false, rw (never, sample_group), v)
        | inr samples ↦
            let (s, admitted, e, ok, same, _, more, _) =
              sample-Sampled fl g.reservoir u (seconds fl event.duration) event.trace_id v.valid in
            (
              record g { total = g.total + 1; reservoir = s },
              admitted,
              rw (samples, e, sample_group) refl,
              record {
                valid = ok;
                large = omega (arith, same, v.large);
                seen = omega (arith, more, v.seen);
              },
            )
      ]

  get_dynamic-AllValid :
      (gs : TraceGroups F) (i : ℕ) (pg : PolicyGroup F) (name : String)
      → AllValid fl gs
      → get_elem? gs.policy_groups i ≡ some pg
      → AllValid fl (get_dynamic fl gs i pg name).0
  unfolding get_dynamic
  get_dynamic-AllValid gs i pg name v at = elim (Option-cases (lookup name pg.dynamic)) [
    | inr (g, known) ↦ rw (known, get_dynamic) v
    | inl new ↦ elim (Bool-cases (gs.num_dynamic_service_groups == gs.max_dynamic_service_groups)) [
      | inl full ↦ rw (new, full, get_dynamic) v
      | inr room ↦
          let old = All-get_elem? (PolicyAll fl (GroupIsValid fl)) gs.policy_groups i pg v at in
          let g = new_trace_group fl pg.policy.sample_rate in
          rw (new, room, get_dynamic)
            (All-set (PolicyAll fl (GroupIsValid fl)) gs.policy_groups i
              (record pg { dynamic = insert name g pg.dynamic }) v
              (
                old.0,
                insert-All (GroupIsValid fl) name g pg.dynamic
                    (new_trace_group-GroupIsValid fl pg.policy.sample_rate) old.1,
              ))
    ]
  ]

  get_trace_group-AllValid :
      (gs : TraceGroups F) (event : ApmEvent F) (tx : Transaction F)
      → Sound fl gs
      → AllValid fl gs
      → AllValid fl (get_trace_group fl gs event tx).0
  unfolding get_trace_group get_from_policy
  get_trace_group-AllValid gs event tx sound v =
      let ((i, pg), found, at) = find_policy_total fl gs.policy_groups event tx sound.default in
      elim (Option-cases pg.g) [
        | inl n ↦
            rw (found, n, get_from_policy) (get_dynamic-AllValid gs i pg event.service.name v at)
        | inr (g, s) ↦ rw (found, s, get_from_policy) v
      ]

  abbrev Result : Type 0
  Result = TraceGroups F × (Bool ⊎ GroupError)

  sample_found-Sound :
      (gs gs' : TraceGroups F) (f : Found) (u : F) (event : ApmEvent F)
      → Sound fl gs'
      → AllValid fl gs'
      → Looked fl gs gs' event f
      → (r : Result) × (sample_found fl u event (gs', f) ≡ some r)
        × Sound fl r.0
        × AllValid fl r.0
        × (r.1 ≢ inr no_matching_policy)
  unfolding sample_found
  sample_found-Sound gs gs' _ u event s v (crowded same full) =
      ((gs', inr too_many_trace_groups), refl, s, v, λ h. cc)
  sample_found-Sound gs gs' _ u event s v (there p g at) =
      let ok = group_at-P fl (GroupIsValid fl) gs'.policy_groups p g v at in
      let (g', admitted, e, ok') = sample_group-GroupIsValid g u event ok in
      (
        (record gs' { policy_groups = update_at fl gs'.policy_groups p g' }, inl admitted),
        rw (at, e, sample_found) refl,
        update_at-Sound fl gs' p g g' s at,
        update_at-P fl (GroupIsValid fl) gs'.policy_groups p g' v ok',
        λ h. cc,
      )

  -- Sampling a root transaction in sound trace groups, all of them valid, does not panic and finds
  -- a policy. The groups stay sound and valid: every reservoir within its capacity.
  pub sample_trace-Sound :
      (gs : TraceGroups F) (u : F) (event : ApmEvent F) (tx : Transaction F)
      → Sound fl gs
      → AllValid fl gs
      → (r : TraceGroups F × (Bool ⊎ GroupError)) × (sample_trace fl gs u event tx ≡ some r)
        × Sound fl r.0
        × AllValid fl r.0
        × (r.1 ≢ inr no_matching_policy)
  unfolding sample_trace
  sample_trace-Sound gs u event tx s v =
      let found = get_trace_group fl gs event tx in
      let (s', looked) = get_trace_group-Outcome fl gs event tx s in
      sample_found-Sound gs found.0 found.1 u event s' (get_trace_group-AllValid gs event tx s v)
        looked
