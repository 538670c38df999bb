-- ===== src/Sampling/Groups/Kept.antt =====
-- Properties of all trace groups, read and written through pointers.
use apm_server.Prelude.{
  ℕ, ◌≤◌, ◌≡◌, refl, subst, ◌∙◌, Option, none, some, List, [], ◌∷◌, inl, inr, length, get_elem?,
  All, All-set, All-get_elem?, arith, Bool-cases, Option-cases, str_eq, string_eq,
}
use apm_server.Prelude.Maps.{lookup, insert, lookup-All, insert-All, length-insert_old}
use apm_server.Model.Float64.{Float64}
use apm_server.Sampling.Reservoir.Bounds.{IsValid}
use apm_server.Sampling.Policies.{Policy}
use apm_server.Sampling.Groups.{
  TraceGroup, PolicyGroup, TraceGroups, GroupPointer, static, dynamic_for, min_reservoir_size,
  new_trace_group, new_trace_groups, policy_group, policy_groups_of, group_at, update_at,
}
use apm_server.Sampling.Groups.Lookup.{Sound, count_dynamic-set, has_default-set}

module _ (fl : Float64) where
  open fl use {F, of_int, eqb}

  -- A group whose reservoir is at least as large as the minimum, within its capacity, and no larger
  -- than the number of root transactions seen.
  pub record GroupIsValid (g : TraceGroup F) : Type 0 where
    pub valid : IsValid fl g.reservoir
    pub large : min_reservoir_size ≤ g.reservoir.capacity
    pub seen : length g.reservoir.items ≤ g.total

  abbrev pub Static : (TraceGroup F → Type 0) → Option (TraceGroup F) → Type 0
  Static P none = Unit
  Static P (some g) = P g

  abbrev pub PolicyAll : (TraceGroup F → Type 0) → PolicyGroup F → Type 0
  PolicyAll P pg = Static P pg.g × All (λ x. P x.1) pg.dynamic

  -- All groups of all policies.
  abbrev pub GroupsAll : (TraceGroup F → Type 0) → List (PolicyGroup F) → Type 0
  GroupsAll P = All (PolicyAll P)

  abbrev pub AllValid : TraceGroups F → Type 0
  AllValid gs = GroupsAll GroupIsValid gs.policy_groups

  pub new_trace_group-GroupIsValid : (rate : F) → GroupIsValid (new_trace_group fl rate)
  unfolding new_trace_group
  new_trace_group-GroupIsValid rate = record {
    valid = record { some_room = omega arith; within = omega arith };
    large = omega arith;
    seen = omega arith;
  }

  policy_groups_of-Valid : (ps : List (Policy F)) → GroupsAll GroupIsValid (policy_groups_of fl ps)
  unfolding policy_groups_of policy_group
  policy_groups_of-Valid [] = tt
  policy_groups_of-Valid (p ∷ ps) = elim (Bool-cases (str_eq p.criteria.service_name "")) [
    | inl any ↦ rw (any, policy_group) ((tt, tt), policy_groups_of-Valid ps)
    | inr one ↦
        rw (one, policy_group)
          ((new_trace_group-GroupIsValid p.sample_rate, tt), policy_groups_of-Valid ps)
  ]

  -- The groups that a processor starts with.
  pub new_trace_groups-AllValid :
      (ps : List (Policy F)) (limit : ℕ) (decay : F) → AllValid (new_trace_groups fl ps limit decay)
  unfolding new_trace_groups
  new_trace_groups-AllValid ps limit decay = policy_groups_of-Valid ps

  static_some :
      (P : TraceGroup F → Type 0) (o : Option (TraceGroup F)) (g : TraceGroup F)
      → Static P o
      → o ≡ some g
      → P g
  static_some P none g h e = cc
  static_some P (some x) g h e = let same : x ≡ g = cc in subst P same h

  pub group_at-P :
      (P : TraceGroup F → Type 0) (pgs : List (PolicyGroup F)) (p : GroupPointer) (g : TraceGroup F)
      → GroupsAll P pgs
      → group_at fl pgs p ≡ some g
      → P g
  unfolding group_at
  group_at-P P pgs (static i) g h e = elim (Option-cases (get_elem? pgs i)) [
    | inl f ↦ cc (e, f)
    | inr (pg, f) ↦ static_some P pg.g g (All-get_elem? (PolicyAll P) pgs i pg h f).0 (ground arith)
  ]
  group_at-P P pgs (dynamic_for i name) g h e = elim (Option-cases (get_elem? pgs i)) [
    | inl f ↦ absurd (ground arith)
    | inr (pg, f) ↦
        lookup-All P name g pg.dynamic (All-get_elem? (PolicyAll P) pgs i pg h f).1 (ground arith)
  ]

  pub update_at-P :
      (P : TraceGroup F → Type 0) (pgs : List (PolicyGroup F)) (p : GroupPointer) (g : TraceGroup F)
      → GroupsAll P pgs
      → P g
      → GroupsAll P (update_at fl pgs p g)
  unfolding update_at
  update_at-P P pgs (static i) g h pg0 = elim (Option-cases (get_elem? pgs i)) [
    | inl f ↦ rw (f, update_at) h
    | inr (pg, f) ↦
        rw (f, update_at)
          (All-set (PolicyAll P) pgs i (record pg { g = some g }) h
            (pg0, (All-get_elem? (PolicyAll P) pgs i pg h f).1))
  ]
  update_at-P P pgs (dynamic_for i name) g h pg0 = elim (Option-cases (get_elem? pgs i)) [
    | inl f ↦ rw (f, update_at) h
    | inr (pg, f) ↦
        let old = All-get_elem? (PolicyAll P) pgs i pg h f in
        rw (f, update_at)
          (All-set (PolicyAll P) pgs i (record pg { dynamic = insert name g pg.dynamic }) h
            (old.0, insert-All P name g pg.dynamic pg0 old.1))
  ]

  -- Writing through a pointer to a group keeps the policies and the number of groups.
  pub update_at-Sound :
      (gs : TraceGroups F) (p : GroupPointer) (g g' : TraceGroup F)
      → Sound fl gs
      → group_at fl gs.policy_groups p ≡ some g
      → Sound fl (record gs { policy_groups = update_at fl gs.policy_groups p g' })
  unfolding update_at group_at
  update_at-Sound gs (static i) g g' v e = elim (Option-cases (get_elem? gs.policy_groups i)) [
    | inl f ↦ absurd (ground arith)
    | inr (pg, f) ↦
        let pg' = record pg { g = some g' } in
        rw (f, update_at)
          (record {
            default = has_default-set fl gs.policy_groups i pg pg' f refl ∙ v.default;
            counted = omega (arith, count_dynamic-set fl gs.policy_groups i pg pg' f, v.counted);
            limited = v.limited;
          })
  ]
  update_at-Sound gs (dynamic_for i name) g g' v e =
      elim (Option-cases (get_elem? gs.policy_groups i)) [
        | inl f ↦ absurd (ground arith)
        | inr (pg, f) ↦
            let pg' = record pg { dynamic = insert name g' pg.dynamic } in
            let known : lookup name pg.dynamic ≡ some g = ground arith in
            let size = length-insert_old name g' g pg.dynamic known in
            rw (f, update_at)
              (record {
                default = has_default-set fl gs.policy_groups i pg pg' f refl ∙ v.default;
                counted =
                    omega
                      (arith, count_dynamic-set fl gs.policy_groups i pg pg' f, v.counted, size);
                limited = v.limited;
              })
      ]
