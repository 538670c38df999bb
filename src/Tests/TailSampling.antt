-- ===== src/Tests/TailSampling.antt =====
-- A processor over a storage that is a list of decisions and a list of events.
use apm_server.Prelude.{
  ℕ, ◌≡◌, refl, String, Option, none, some, Bool, true, false, List, [], ◌∷◌, ◌++◌, ◌⊎◌, inl, inr,
  string_eq, str_eq, if◌then◌else◌, count,
}
use apm_server.Prelude.Maps.{lookup, insert}
use apm_server.Model.Event.{ApmEvent, zero_event, metricset_processor}
use apm_server.Sampling.Storage.{StorageError, not_found, codec_error}
use apm_server.Sampling.Groups.{
  new_trace_groups, get_trace_group, criteria_match, policy_group, group_at,
}
use apm_server.Sampling.Groups.Traces.{sample_trace}
use apm_server.Sampling.EventStore.{EventStore}
use apm_server.Sampling.Processor.{
  EventMetrics, TailSampler, ProcessError, process_batch, storage_error,
}
use apm_server.Sampling.Processor.Batches.{Handled, process_batch-Handled, process_batch-count}
use apm_server.Tests.Fixtures.{whole, transaction_event, span_event}
use apm_server.Tests.Traces.{config}

pub record Kept : Type 0 where
  pub decisions : List (String × Bool)
  pub events : List (String × ApmEvent ℕ)

abbrev answer : Option Bool → Bool ⊎ StorageError
answer none = inr not_found
answer (some sampled) = inl sampled

abbrev of_trace : String → List (String × ApmEvent ℕ) → List (ApmEvent ℕ)
of_trace trace_id [] = []
of_trace trace_id ((t, event) ∷ events) =
    if str_eq t trace_id then event ∷ of_trace trace_id events else of_trace trace_id events

abbrev list_store : EventStore ℕ
list_store = record {
  State = Kept;
  is_trace_sampled = λ s trace_id. some (answer (lookup trace_id s.decisions));
  write_trace_sampled = λ s trace_id sampled.
      some (record s { decisions = insert trace_id sampled s.decisions }, none);
  write_trace_event =
      λ s trace_id id event. some (record s { events = (trace_id, event) ∷ s.events }, none);
  read_trace_events = λ s trace_id out. some (s, (out ++ of_trace trace_id s.events, none));
  delete_trace_event = λ s trace_id id. some (s, none);
  flush = λ s. (s, []);
}

abbrev Sampler : Type 0
Sampler = TailSampler whole list_store (λ n. 3)

abbrev no_metrics : EventMetrics
no_metrics = record { processed = 0; dropped = 0; stored = 0; sampled = 0; head_unsampled = 0 }

abbrev sampler : Sampler
sampler = record {
  groups = new_trace_groups whole config.policies 2 1;
  storage = some (record { decisions = []; events = [] });
  metrics = no_metrics;
  drawn = 0;
}

abbrev metricset_event : ApmEvent ℕ
metricset_event = record (zero_event ℕ) { processor = metricset_processor }

abbrev batch : List (ApmEvent ℕ)
batch = span_event "db" ∷ metricset_event ∷ transaction_event "a" ∷ span_event "db" ∷ []

abbrev handled :
    Option (Sampler × List (ApmEvent ℕ) × Option ProcessError) → Sampler × List (ApmEvent ℕ)
handled none = (sampler, [])
handled (some r) = (r.0, r.1)

abbrev after : Sampler × List (ApmEvent ℕ)
unfolding process_batch
after = handled (process_batch whole list_store (λ n. 3) sampler batch)

processed : process_batch whole list_store (λ n. 3) sampler batch ≡ some (after.0, after.1, none)
unfolding process_batch after lookup sample_trace get_trace_group new_trace_groups criteria_match
    policy_group group_at insert
processed = refl

process_batch-Handled_example :
    Handled whole list_store (λ n. 3) sampler.metrics after.0.metrics batch after.1
process_batch-Handled_example =
    process_batch-Handled whole list_store (λ n. 3) sampler after.0 batch after.1 processed

-- A storage whose reads fail.
abbrev failing_store : EventStore ℕ
failing_store = record {
  State = ℕ;
  is_trace_sampled = λ s trace_id.
      if str_eq trace_id "bad" then some (inr (codec_error "read")) else some (inl false);
  write_trace_sampled = λ s trace_id sampled. some (s, none);
  write_trace_event = λ s trace_id id event. some (s, none);
  read_trace_events = λ s trace_id out. some (s, (out, none));
  delete_trace_event = λ s trace_id id. some (s, none);
  flush = λ s. (s, []);
}

abbrev failing : TailSampler whole failing_store (λ n. 3)
failing = record {
  groups = new_trace_groups whole config.policies 2 1;
  storage = some 0;
  metrics = no_metrics;
  drawn = 0;
}

abbrev bad_event : ApmEvent ℕ
bad_event = record (span_event "db") { trace_id = "bad" }

-- The first span has left before the second one fails: the array has it behind the others.
array_kept :
    process_batch whole failing_store
      (λ n. 3)
      failing
      (span_event "db" ∷ metricset_event ∷ bad_event ∷ [])
    ≡ some (
      record failing { metrics = record no_metrics { processed = 2; dropped = 1 } },
      bad_event ∷ metricset_event ∷ span_event "db" ∷ [],
      some (storage_error (codec_error "read")),
    )
unfolding process_batch
array_kept = refl

process_batch-count_example :
    count (λ e. true) (bad_event ∷ metricset_event ∷ span_event "db" ∷ [])
    ≡ count (λ e. true) (span_event "db" ∷ metricset_event ∷ bad_event ∷ [])
process_batch-count_example =
    process_batch-count whole failing_store (λ n. 3) failing
      (record failing { metrics = record no_metrics { processed = 2; dropped = 1 } })
      (span_event "db" ∷ metricset_event ∷ bad_event ∷ [])
      (bad_event ∷ metricset_event ∷ span_event "db" ∷ []) (storage_error (codec_error "read"))
      (λ e. true) array_kept
