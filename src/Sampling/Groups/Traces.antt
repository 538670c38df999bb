-- ===== src/Sampling/Groups/Traces.antt =====
-- sampling/groups.go: the sampling of a root transaction in its group, and the end of a sampling
-- interval. A panic is `none`; random numbers are arguments.
pub mod Sampled
pub mod Finalized
use apm_server.Prelude.{
  ℕ, zero, suc, ◌+◌, ◌-◌, ◌/◌, ◌%◌, String, Option, none, some, ◌>>=◌, Bool, true, false, ◌&&◌,
  ◌||◌, List, [], ◌∷◌, ◌++◌, ◌==◌, ltb, if◌then◌else◌, ℤ, pos, negsuc, length, ◌⊎◌, inl, inr,
}
use apm_server.Model.Float64.{Float64}
use apm_server.Model.Event.{ApmEvent, Transaction}
use apm_server.Sampling.Reservoir.{Reservoir, sample, reset, resize, pop_down, values}
use apm_server.Sampling.Groups.{
  TraceGroup, PolicyGroup, TraceGroups, GroupError, GroupPointer, Found, group, failed,
  min_reservoir_size, get_trace_group, group_at, update_at,
}

module _ (fl : Float64) where
  open fl use {F, of_int, add, sub, mul, div, eqb, round}

  abbrev minus : ℕ → ℤ
  minus zero = pos 0
  minus (suc n) = negsuc n

  -- `Duration.Seconds`
  unfoldable pub seconds : ℤ → F
  seconds (pos n) =
      add (of_int (pos (n / 1_000_000_000)))
        (div (of_int (pos (n % 1_000_000_000))) (of_int (pos 1_000_000_000)))
  seconds (negsuc n) =
      add (of_int (minus (suc n / 1_000_000_000)))
        (div (of_int (minus (suc n % 1_000_000_000))) (of_int (pos 1_000_000_000)))

  -- `(*traceGroup).sampleTrace`
  unfoldable pub sample_group : TraceGroup F → F → ApmEvent F → Option (TraceGroup F × Bool)
  sample_group g u event = if eqb g.sampling_fraction (of_int (pos 0)) then some (g, false) else (do
    (reservoir, admitted) ← sample fl g.reservoir u (seconds event.duration) event.trace_id
    some (record g { total = g.total + 1; reservoir = reservoir }, admitted))

  unfoldable pub sample_found :
      F → ApmEvent F → TraceGroups F × Found → Option (TraceGroups F × (Bool ⊎ GroupError))
  unfolding sample_group
  sample_found u event (gs, failed e) = some (gs, inr e)
  sample_found u event (gs, group p) = do
    g ← group_at fl gs.policy_groups p
    (g', admitted) ← sample_group g u event
    some (record gs { policy_groups = update_at fl gs.policy_groups p g' }, inl admitted)

  -- `(*traceGroups).sampleTrace`
  unfoldable pub sample_trace :
      TraceGroups F → F → ApmEvent F → Transaction F → Option (TraceGroups F × (Bool ⊎ GroupError))
  unfolding sample_found
  sample_trace gs u event tx = sample_found u event (get_trace_group fl gs event tx)

  -- The moving average of the number of root transactions in an interval.
  unfoldable pub next_ingest_rate : TraceGroup F → F → F
  next_ingest_rate g decay =
      if eqb g.ingest_rate (of_int (pos 0))
      then of_int (pos g.total)
      else add (mul g.ingest_rate (sub (of_int (pos 1)) decay)) (mul decay (of_int (pos g.total)))

  unfoldable pub new_reservoir_size : F → F → ℕ
  new_reservoir_size sampling_fraction ingest_rate =
      let n = round (mul sampling_fraction ingest_rate) in
      if ltb n min_reservoir_size then min_reservoir_size else n

  -- `(*traceGroup).finalizeSampledTraces`: the group and the trace IDs that it adds.
  unfoldable pub finalize_group : TraceGroup F → F → Option (TraceGroup F × List String)
  unfolding next_ingest_rate new_reservoir_size reset values
  finalize_group g decay = do
    let rate = next_ingest_rate g decay
    let desired_total = round (mul g.sampling_fraction (of_int (pos g.total)))
    items ← pop_down fl (length g.reservoir.items) desired_total g.reservoir.items
    reservoir ← resize fl (reset fl g.reservoir) (new_reservoir_size g.sampling_fraction rate)
    some (
      record g { ingest_rate = rate; total = 0; reservoir = reservoir },
      values fl (record g.reservoir { items = items }),
    )

  -- A dynamic group is removed after the interval if it is as small as can be, and it has seen
  -- nothing or the limit has been reached.
  unfoldable pub is_removed : Bool → ℕ → TraceGroup F → Bool
  is_removed limit_reached total g =
      (limit_reached || total == 0) && g.reservoir.capacity == min_reservoir_size

  -- The loop over the groups of a policy, with the counter of dynamic groups.
  unfoldable pub finalize_dynamic :
      Bool
      → F
      → ℕ
      → List (String × TraceGroup F)
      → Option (ℕ × List (String × TraceGroup F) × List String)
  unfolding is_removed
  finalize_dynamic reached decay n [] = some (n, [], [])
  finalize_dynamic reached decay n ((name, g) ∷ rest) = do
    (g', ids) ← finalize_group g decay
    let removed = is_removed reached g.total g'
    (n', rest', more) ← finalize_dynamic reached decay (if removed then n - 1 else n) rest
    some (n', if removed then rest' else (name, g') ∷ rest', ids ++ more)

  -- The groups of one policy: its static group, or its dynamic groups.
  unfoldable pub finalize_policy :
      Bool → F → ℕ → PolicyGroup F → Option (ℕ × PolicyGroup F × List String)
  unfolding finalize_dynamic
  finalize_policy reached decay n pg = elim pg.g [
    | some g ↦ do (g', ids) ← finalize_group g decay; some (n, record pg { g = some g' }, ids)
    | none ↦ do
      (n', dynamic, ids) ← finalize_dynamic reached decay n pg.dynamic
      some (n', record pg { dynamic = dynamic }, ids)
  ]

  unfoldable pub finalize_policies :
      Bool → F → ℕ → List (PolicyGroup F) → Option (ℕ × List (PolicyGroup F) × List String)
  unfolding finalize_policy
  finalize_policies reached decay n [] = some (n, [], [])
  finalize_policies reached decay n (pg ∷ pgs) = do
    (n', pg', ids) ← finalize_policy reached decay n pg
    (n'', pgs', more) ← finalize_policies reached decay n' pgs
    some (n'', pg' ∷ pgs', ids ++ more)

  -- `(*traceGroups).finalizeSampledTraces`: the groups and the trace IDs that are appended.
  unfoldable pub finalize_sampled_traces : TraceGroups F → Option (TraceGroups F × List String)
  unfolding finalize_policies
  finalize_sampled_traces gs = do
    let reached = gs.num_dynamic_service_groups == gs.max_dynamic_service_groups
    (n, pgs, ids) ←
        finalize_policies reached gs.ingest_rate_decay_factor gs.num_dynamic_service_groups
          gs.policy_groups
    some (record gs { num_dynamic_service_groups = n; policy_groups = pgs }, ids)
