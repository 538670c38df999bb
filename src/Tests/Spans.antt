-- ===== src/Tests/Spans.antt =====
-- The spans of a batch, with room for one group.
use apm_server.Prelude.{
  Member, ℕ, ◌≡◌, refl, List, [], ◌∷◌, ◌++◌, none, some, true, pos, String, length, is_some,
  if◌then◌else◌, arith,
}
use apm_server.Prelude.Maps.{lookup, insert}
use apm_server.Model.Event.{ApmEvent}
use apm_server.SpanMetrics.Buffer.{
  AggregationKey, aggregation_key_eq, aggregation_key_beq, make_aggregation_key, SpanMetrics,
  MetricsBuffer, store_or_update,
}
use apm_server.SpanMetrics.Buffer.Bounds.{IsBounded, Stored, store_or_update-Stored}
use apm_server.SpanMetrics.Buffer.Gather.{left_out, total}
use apm_server.SpanMetrics.Aggregator.{
  Aggregator, AggregatorConfig, map_metricsets, process_batch, process_events, process_event,
  process_span, publish, store,
}
use apm_server.SpanMetrics.Aggregator.Measured.{measured}
use apm_server.SpanMetrics.Aggregator.Measured.Batches.{process_batch-measured}
use apm_server.SpanMetrics.Aggregator.Measured.Published.{Describes, publish_spans}
use apm_server.Tests.Fixtures.{whole, span_event}

abbrev config : AggregatorConfig
config = record { has_batch_processor = true; max_groups = pos 1; interval = pos 60 }

abbrev key_for : String → AggregationKey
key_for resource = record {
  timestamp = 0;
  service_name = "shop";
  service_environment = "";
  agent_name = "";
  resource = resource;
  outcome = "";
}

abbrev two : SpanMetrics ℕ
two = record { count = 2; sum = 10 }

abbrev empty : MetricsBuffer ℕ
empty = record { max_size = 1; m = [] }

abbrev one : MetricsBuffer ℕ
one = record { max_size = 1; m = (key_for "db", two) ∷ [] }

store_or_update-Stored_example :
    Stored whole one
      (key_for "cache")
      two
      (store_or_update whole one (key_for "cache") two).0
      (store_or_update whole one (key_for "cache") two).1
store_or_update-Stored_example =
    store_or_update-Stored whole one (key_for "cache") two (omega arith)

abbrev start : Aggregator whole
start = record { config = config; active = empty; inactive = empty }

abbrev full : Aggregator whole
full = record { config = config; active = one; inactive = empty }

abbrev batch : List (ApmEvent ℕ)
batch = span_event "db" ∷ span_event "cache" ∷ span_event "db" ∷ []

process_batch-measured_example :
    (a : Aggregator whole) × (process_batch whole start batch
      ≡ some (a, batch ++ map_metricsets whole (left_out whole a.active (measured whole 60 batch))))
    × IsBounded whole a.active
    × ((q : AggregationKey)
        → lookup q a.active.m ≡ (
            if is_some (lookup q a.active.m)
            then total whole q (lookup q empty.m) (measured whole 60 batch)
            else none))
process_batch-measured_example =
    process_batch-measured whole start batch (omega arith) (refl, (refl, (refl, tt)))

abbrev measuring : Aggregator whole × List (ApmEvent ℕ)
unfolding process_batch
measuring = elim (process_batch whole start batch) [ none ↦ (start, []) | some r ↦ r ]

measuring_done : process_batch whole start batch ≡ some (measuring.0, measuring.1)
unfolding process_batch measuring process_events process_event process_span
measuring_done = refl

measuring-has_one : length measuring.0.active.m ≡ 1
unfolding measuring process_batch process_events process_event process_span store_or_update lookup
    insert store aggregation_key_beq make_aggregation_key
measuring-has_one = refl

publish_spans_example :
    (b : List (ApmEvent ℕ)) × ((publish whole measuring.0).1 ≡ some b)
    × (length b ≡ length measuring.0.active.m)
    × ((q : AggregationKey) (v : SpanMetrics ℕ)
        → is_some (lookup q measuring.0.active.m) ≡ true
        → total whole q (lookup q empty.m) (measured whole 60 batch) ≡ some v
        → (e : ApmEvent ℕ) × Member e b × Describes whole q v e)
    × ((publish whole measuring.0).0.inactive ≡ record measuring.0.active { m = [] })
    × ((publish whole measuring.0).0.active ≡ measuring.0.inactive)
publish_spans_example =
    publish_spans whole start measuring.0 batch measuring.1 (omega arith) (refl, (refl, (refl, tt)))
      measuring_done (λ e. absurd (omega (arith, e, measuring-has_one)))
