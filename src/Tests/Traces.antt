-- ===== src/Tests/Traces.antt =====
-- Trace groups under one policy of its own and the default policy.
use apm_server.Prelude.{
  ◌≡◌, ◌≢◌, ◌≤◌, ◌+◌, refl, List, [], ◌∷◌, none, some, pos, ℕ, String, Bool, ◌⊎◌, inr, All, length,
  ltb, if◌then◌else◌, arith,
}
use apm_server.Sampling.Policies.{PolicyCriteria, LocalSamplingConfig, validate_local}
use apm_server.Sampling.Groups.{TraceGroups, new_trace_groups, get_trace_group}
use apm_server.Sampling.Groups.Lookup.{
  Sound, Outcome, new_trace_groups-Sound, get_trace_group-Outcome,
}
use apm_server.Sampling.Groups.{GroupError, no_matching_policy, TraceGroup}
use apm_server.Sampling.Groups.Kept.{AllValid, GroupIsValid, new_trace_groups-AllValid}
use apm_server.Sampling.Groups.Traces.{sample_trace, finalize_sampled_traces, finalize_group}
use apm_server.Sampling.Groups.Traces.Sampled.{sample_trace-Sound}
use apm_server.Sampling.Groups.Traces.Finalized.{
  IsFresh, PolicyIsFresh, desired, finalize_group-IsFresh, finalize_sampled_traces-Sound,
}
use apm_server.Sampling.Reservoir.{Reservoir, sample}
use apm_server.Sampling.Reservoir.Bounds.{IsValid, Sampled, key_of, sample-Sampled}
use apm_server.Tests.Fixtures.{whole, transaction_event, transaction_named}

abbrev anything : PolicyCriteria
anything = record {
  service_name = "";
  service_environment = "";
  trace_outcome = "";
  trace_name = "";
}

abbrev pub config : LocalSamplingConfig ℕ
config = record {
  flush_interval = pos 10;
  max_dynamic_services = pos 2;
  policies =
      record { criteria = record anything { service_name = "cart" }; sample_rate = 0 }
      ∷ record { criteria = anything; sample_rate = 0 }
      ∷ [];
  ingest_rate_decay_factor = 1;
}

config_valid : validate_local whole config ≡ none
unfolding validate_local
config_valid = refl

abbrev groups : TraceGroups ℕ
unfolding new_trace_groups
groups = new_trace_groups whole config.policies 2 1

new_trace_groups-Sound_example : Sound whole (new_trace_groups whole config.policies 2 1)
new_trace_groups-Sound_example = new_trace_groups-Sound whole config config_valid

groups-Sound : Sound whole groups
unfolding new_trace_groups
groups-Sound = new_trace_groups-Sound whole config config_valid

get_trace_group-Outcome_example :
    Outcome whole groups
      (transaction_event "a")
      (get_trace_group whole groups (transaction_event "a") (transaction_named "a"))
get_trace_group-Outcome_example =
    get_trace_group-Outcome whole groups (transaction_event "a") (transaction_named "a")
      groups-Sound

groups-AllValid : AllValid whole groups
unfolding groups
groups-AllValid = new_trace_groups-AllValid whole config.policies 2 1

sample_trace-Sound_example :
    (r : TraceGroups ℕ × (Bool ⊎ GroupError)) × (sample_trace whole groups 3
        (transaction_event "a")
        (transaction_named "a")
      ≡ some r)
    × Sound whole r.0
    × AllValid whole r.0
    × (r.1 ≢ inr no_matching_policy)
sample_trace-Sound_example =
    sample_trace-Sound whole groups 3 (transaction_event "a") (transaction_named "a") groups-Sound
      groups-AllValid

finalize_sampled_traces-Sound_example :
    (gs' : TraceGroups ℕ) × (ids : List String) × (finalize_sampled_traces whole groups
      ≡ some (gs', ids))
    × Sound whole gs'
    × AllValid whole gs'
    × All (PolicyIsFresh whole) gs'.policy_groups
    × (gs'.num_dynamic_service_groups ≤ groups.num_dynamic_service_groups)
finalize_sampled_traces-Sound_example =
    finalize_sampled_traces-Sound whole groups groups-Sound groups-AllValid

-- A reservoir of two items, which is full.
abbrev reservoir : Reservoir ℕ
reservoir = record { items = (1, "a") ∷ (4, "b") ∷ []; capacity = 2 }

reservoir-IsValid : IsValid whole reservoir
reservoir-IsValid = record { some_room = omega arith; within = omega arith }

sample-Sampled_example :
    (s' : Reservoir ℕ) × (admitted : Bool) × (sample whole reservoir 3 1 "c" ≡ some (s', admitted))
    × IsValid whole s'
    × (s'.capacity ≡ reservoir.capacity)
    × (length reservoir.items ≤ length s'.items)
    × (length s'.items ≤ length reservoir.items + 1)
    × Sampled whole reservoir s' (key_of whole 3 1, "c") admitted
sample-Sampled_example = sample-Sampled whole reservoir 3 1 "c" reservoir-IsValid

abbrev sampled_group : TraceGroup ℕ
sampled_group = record {
  sampling_fraction = 1;
  reservoir = record { items = (1, "a") ∷ (4, "b") ∷ []; capacity = 1000 };
  total = 2;
  ingest_rate = 0;
}

sampled_group-GroupIsValid : GroupIsValid whole sampled_group
sampled_group-GroupIsValid = record {
  valid = record { some_room = omega arith; within = omega arith };
  large = omega arith;
  seen = omega arith;
}

finalize_group-IsFresh_example :
    (g' : TraceGroup ℕ) × (ids : List String) × (finalize_group whole sampled_group 1
      ≡ some (g', ids))
    × IsFresh whole g'
    × (length ids
        ≡ (if ltb (desired whole sampled_group) 2 then desired whole sampled_group else 2))
finalize_group-IsFresh_example =
    finalize_group-IsFresh whole sampled_group 1 sampled_group-GroupIsValid
