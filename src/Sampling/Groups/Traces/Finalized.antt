-- ===== src/Sampling/Groups/Traces/Finalized.antt =====
-- The end of a sampling interval in sound trace groups.
use apm_server.Prelude.{
  ℕ, suc, ◌+◌, ◌-◌, ◌≤◌, ◌≡◌, refl, ap, subst, ◌∙◌, String, Option, none, some, Bool, List, [], ◌∷◌,
  ◌++◌, inl, inr, if◌then◌else◌, pos, length, All, ◌==◌, ltb, arith, Bool-cases, Option-cases,
}
use apm_server.Model.Float64.{Float64}
use apm_server.Sampling.Reservoir.{values}
use apm_server.Sampling.Reservoir.Bounds.{pop_down_lem, reset-resize}
use apm_server.Sampling.Groups.{TraceGroup, PolicyGroup, TraceGroups, min_reservoir_size}
use apm_server.Sampling.Groups.Lookup.{Sound, has_default, count_dynamic}
use apm_server.Sampling.Groups.Kept.{GroupIsValid, Static, PolicyAll, GroupsAll, AllValid}
use apm_server.Sampling.Groups.Traces.{
  next_ingest_rate, new_reservoir_size, finalize_group, is_removed, finalize_dynamic,
  finalize_policy, finalize_policies, finalize_sampled_traces,
}

module _ (fl : Float64) where
  open fl use {F, of_int, mul, round}

  -- A valid group at the start of an interval: nothing seen, nothing sampled.
  pub record IsFresh (g : TraceGroup F) : Type 0 where
    pub valid : GroupIsValid fl g
    pub unseen : g.total ≡ 0
    pub unsampled : g.reservoir.items ≡ []

  abbrev pub desired : TraceGroup F → ℕ
  desired g = round (mul g.sampling_fraction (of_int (pos g.total)))

  size_large : (fraction rate : F) → min_reservoir_size ≤ new_reservoir_size fl fraction rate
  unfolding new_reservoir_size
  size_large fraction rate = ground arith

  length-values :
      (items : List (F × String)) (n : ℕ)
      → length (values fl (record { items = items; capacity = n })) ≡ length items
  unfolding values
  length-values [] n = refl
  length-values (x ∷ items) n = ap suc (length-values items n)

  -- Ending the interval of a valid group does not panic. The group is fresh then, and gives as many
  -- trace IDs as it has sampled, but not more than the desired fraction of the transactions seen.
  pub finalize_group-IsFresh :
      (g : TraceGroup F) (decay : F)
      → GroupIsValid fl g
      → (g' : TraceGroup F) × (ids : List String) × (finalize_group fl g decay ≡ some (g', ids))
        × IsFresh g'
        × (length ids ≡ (
            if ltb (desired g) (length g.reservoir.items)
            then desired g
            else length g.reservoir.items))
  unfolding finalize_group
  finalize_group-IsFresh g decay v =
      let rate = next_ingest_rate fl g decay in
      let size = new_reservoir_size fl g.sampling_fraction rate in
      let large = size_large g.sampling_fraction rate in
      let (rest, e, kept, _) =
        pop_down_lem fl (length g.reservoir.items) (desired g) g.reservoir.items refl in
      (
        record g {
          ingest_rate = rate;
          total = 0;
          reservoir = record { items = []; capacity = size };
        },
        values fl (record g.reservoir { items = rest }),
        rw (e, reset-resize fl g.reservoir size, finalize_group) refl,
        record {
          valid = record {
            valid = record { some_room = omega (arith, large); within = omega arith };
            large = large;
            seen = omega arith;
          };
          unseen = refl;
          unsampled = refl;
        },
        length-values rest g.reservoir.capacity ∙ kept,
      )

  finalize_dynamic-IsFresh :
      (reached : Bool) (decay : F) (n : ℕ) (dynamic : List (String × TraceGroup F))
      → All (λ x. GroupIsValid fl x.1) dynamic
      → length dynamic ≤ n
      → (n' : ℕ) × (dynamic' : List (String × TraceGroup F)) × (ids : List String)
        × (finalize_dynamic fl reached decay n dynamic ≡ some (n', dynamic', ids))
        × (n' + length dynamic ≡ n + length dynamic')
        × (length dynamic' ≤ length dynamic)
        × All (λ x. IsFresh x.1) dynamic'
  unfolding finalize_dynamic
  finalize_dynamic-IsFresh reached decay n [] v h = (n, [], [], refl, refl, omega arith, tt)
  finalize_dynamic-IsFresh reached decay n ((name, g) ∷ rest) v h =
      let (g', ids, e, fresh, _) = finalize_group-IsFresh g decay v.0 in
      elim (Bool-cases (is_removed fl reached g.total g')) [
        | inl gone ↦
            let (n', rest', more, f, size, fewer, all) =
              finalize_dynamic-IsFresh reached decay (n - 1) rest v.1 (omega arith) in
            (
              n',
              rest',
              ids ++ more,
              rw (e, gone, f, finalize_dynamic) refl,
              omega (arith, size),
              omega (arith, fewer),
              all,
            )
        | inr stays ↦
            let (n', rest', more, f, size, fewer, all) =
              finalize_dynamic-IsFresh reached decay n rest v.1 (omega arith) in
            (
              n',
              (name, g') ∷ rest',
              ids ++ more,
              rw (e, stays, f, finalize_dynamic) refl,
              omega (arith, size),
              omega (arith, fewer),
              (fresh, all),
            )
      ]

  fresh_valid :
      (dynamic : List (String × TraceGroup F))
      → All (λ x. IsFresh x.1) dynamic
      → All (λ x. GroupIsValid fl x.1) dynamic
  fresh_valid [] h = tt
  fresh_valid (x ∷ rest) h = (h.0.valid, fresh_valid rest h.1)

  -- The groups of a policy that are in use: its static group, or else its dynamic groups.
  abbrev UsedAre :
      (TraceGroup F → Type 0) → Option (TraceGroup F) → List (String × TraceGroup F) → Type 0
  UsedAre P (some g) dynamic = P g
  UsedAre P none dynamic = All (λ x. P x.1) dynamic

  abbrev pub PolicyIsFresh : PolicyGroup F → Type 0
  PolicyIsFresh pg = UsedAre IsFresh pg.g pg.dynamic

  finalize_policy-IsFresh :
      (reached : Bool) (decay : F) (n : ℕ) (pg : PolicyGroup F)
      → PolicyAll fl (GroupIsValid fl) pg
      → length pg.dynamic ≤ n
      → (n' : ℕ) × (pg' : PolicyGroup F) × (ids : List String) × (finalize_policy fl reached decay n
            pg
          ≡ some (n', pg', ids))
        × (n' + length pg.dynamic ≡ n + length pg'.dynamic)
        × (length pg'.dynamic ≤ length pg.dynamic)
        × (pg'.policy ≡ pg.policy)
        × PolicyAll fl (GroupIsValid fl) pg'
        × PolicyIsFresh pg'
  unfolding finalize_policy
  finalize_policy-IsFresh reached decay n pg v h = elim (Option-cases pg.g) [
    | inr (g, s) ↦
        let ok = subst (Static fl (GroupIsValid fl)) s v.0 in
        let (g', ids, e, fresh, _) = finalize_group-IsFresh g decay ok in
        (
          n,
          record pg { g = some g' },
          ids,
          rw (s, e, finalize_policy) refl,
          refl,
          omega arith,
          refl,
          (fresh.valid, v.1),
          fresh,
        )
    | inl none_static ↦
        let (n', dynamic, ids, e, size, fewer, all) =
          finalize_dynamic-IsFresh reached decay n pg.dynamic v.1 h in
        (
          n',
          record { policy = pg.policy; g = none; dynamic = dynamic },
          ids,
          rw (none_static, e, finalize_policy)
              (ap (λ o. some (n', record { policy = pg.policy; g = o; dynamic = dynamic }, ids))
                none_static),
          size,
          fewer,
          refl,
          (tt, fresh_valid dynamic all),
          all,
        )
  ]

  finalize_policies-IsFresh :
      (reached : Bool) (decay : F) (n : ℕ) (pgs : List (PolicyGroup F))
      → GroupsAll fl (GroupIsValid fl) pgs
      → count_dynamic fl pgs ≤ n
      → (n' : ℕ) × (pgs' : List (PolicyGroup F)) × (ids : List String) × (finalize_policies fl
            reached decay n pgs
          ≡ some (n', pgs', ids))
        × (n' + count_dynamic fl pgs ≡ n + count_dynamic fl pgs')
        × (count_dynamic fl pgs' ≤ count_dynamic fl pgs)
        × (has_default fl pgs' ≡ has_default fl pgs)
        × GroupsAll fl (GroupIsValid fl) pgs'
        × All PolicyIsFresh pgs'
  unfolding finalize_policies
  finalize_policies-IsFresh reached decay n [] v h =
      (n, [], [], refl, refl, omega arith, refl, tt, tt)
  finalize_policies-IsFresh reached decay n (pg ∷ pgs) v h =
      let (n', pg', ids, e, size, fewer, same, ok, fresh) =
        finalize_policy-IsFresh reached decay n pg v.0 (omega arith) in
      let (n'', pgs', more, f, sizes, fewers, default, oks, all) =
        finalize_policies-IsFresh reached decay n' pgs v.1 (omega arith) in
      (
        n'',
        pg' ∷ pgs',
        ids ++ more,
        rw (e, f, finalize_policies) refl,
        omega arith,
        omega arith,
        rw (same, default) refl,
        (ok, oks),
        (fresh, all),
      )

  -- Ending an interval of sound trace groups, all of them valid, does not panic. The groups stay
  -- sound and valid, so the counter is still the number of dynamic groups, which has not grown, and
  -- every group in use is fresh.
  pub finalize_sampled_traces-Sound :
      (gs : TraceGroups F)
      → Sound fl gs
      → AllValid fl gs
      → (gs' : TraceGroups F) × (ids : List String) × (finalize_sampled_traces fl gs
          ≡ some (gs', ids))
        × Sound fl gs'
        × AllValid fl gs'
        × All PolicyIsFresh gs'.policy_groups
        × (gs'.num_dynamic_service_groups ≤ gs.num_dynamic_service_groups)
  unfolding finalize_sampled_traces
  finalize_sampled_traces-Sound gs s v =
      let (n, pgs, ids, e, size, fewer, default, ok, fresh) =
        finalize_policies-IsFresh (gs.num_dynamic_service_groups == gs.max_dynamic_service_groups)
          gs.ingest_rate_decay_factor gs.num_dynamic_service_groups gs.policy_groups v
          (omega (arith, s.counted)) in
      let counted : count_dynamic fl pgs ≡ n = omega (arith, s.counted) in
      (
        record gs { num_dynamic_service_groups = n; policy_groups = pgs },
        ids,
        rw (e, finalize_sampled_traces) refl,
        record {
          default = default ∙ s.default;
          counted = counted;
          limited = omega (arith, s.counted, s.limited);
        },
        ok,
        fresh,
        omega (arith, s.counted),
      )
