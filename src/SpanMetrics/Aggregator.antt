-- ===== src/SpanMetrics/Aggregator.antt =====
-- spanmetrics/aggregator.go: the aggregator over the buffers of two periods. A panic is `none`.
pub mod Measured
use apm_server.Prelude.{
  ℕ, String, Option, none, some, ◌>>=◌, Bool, true, false, ◌||◌, not, List, [], ◌∷◌, ◌++◌, ◌==◌,
  ltb, if◌then◌else◌, ℤ, pos, negsuc, length, str_eq, nat_eq,
}
use apm_server.Model.Float64.{Float64}
use apm_server.Model.Event.{
  ApmEvent, Span, DestinationService, Composite, Transaction, DroppedSpanStats, Processor,
  no_processor, span_processor, transaction_processor, metricset_processor, Metricset, zero_service,
  zero_event,
}
use apm_server.SpanMetrics.Buffer.{
  AggregationKey, make_aggregation_key, SpanMetrics, MetricsBuffer, new_metrics_buffer,
  store_or_update,
}

-- `AggregatorConfig`, without the logger; whether a batch processor is given.
pub record AggregatorConfig : Type 0 where
  pub has_batch_processor : Bool
  pub max_groups : ℤ
  pub interval : ℤ

abbrev pub nonneg : ℤ → ℕ
nonneg (pos n) = n
nonneg (negsuc n) = 0

-- `Validate`: the error's text, if any.
unfoldable pub validate : AggregatorConfig → Option String
validate config =
    if not config.has_batch_processor
    then some "BatchProcessor unspecified"
    else (if nonneg config.max_groups == 0
        then some "MaxGroups unspecified or negative"
        else (if nonneg config.interval == 0
            then some "Interval unspecified or negative"
            else none))

module _ (fl : Float64) where
  open fl use {F, of_int, mul, leb as leb_float, round_int, to_int}

  pub record Aggregator : Type 0 where
    pub config : AggregatorConfig
    pub active : MetricsBuffer F
    pub inactive : MetricsBuffer F

  -- `NewAggregator`
  unfoldable pub new_aggregator : AggregatorConfig → Option Aggregator
  unfolding validate
  new_aggregator config = elim (validate config) [
    | some reason ↦ none
    | none ↦ some (record {
      config = config;
      active = new_metrics_buffer (nonneg config.max_groups);
      inactive = new_metrics_buffer (nonneg config.max_groups);
    })
  ]

  unfoldable pub make_metricset : AggregationKey → SpanMetrics F → ApmEvent F
  make_metricset key metrics = record (zero_event F) {
    timestamp = key.timestamp;
    agent_name = key.agent_name;
    service = record zero_service {
      name = key.service_name;
      environment = key.service_environment;
    };
    outcome = key.outcome;
    processor = metricset_processor;
    metricset =
        some (record { name = "service_destination"; doc_count = 0; timeseries_instance_id = "" });
    span = some (record {
      id = "";
      destination_service = some (record {
        resource = key.resource;
        response_time = record { count = round_int metrics.count; sum = round_int metrics.sum };
      });
      composite = none;
      representative_count = of_int (pos 0);
    });
  }

  -- The end of `processSpan` and of `processDroppedSpanStats`.
  unfoldable pub store : Aggregator → AggregationKey → SpanMetrics F → Aggregator × ApmEvent F
  store a key metrics =
      let (active, stored) = store_or_update fl a.active key metrics in
      (record a { active = active }, if stored then zero_event F else make_metricset key metrics)

  -- The number of spans and the duration in nanoseconds that a span stands for.
  unfoldable pub extent : ℤ → Option (Composite F) → ℤ × ℤ
  extent duration none = (pos 1, duration)
  extent duration (some composite) =
      (composite.count, to_int (mul composite.sum (of_int (pos 1_000_000))))

  unfoldable pub span_metrics : Span F → ℤ → SpanMetrics F
  unfolding extent
  span_metrics span duration =
      let (count, total) = extent duration span.composite in
      record {
        count = mul (of_int count) span.representative_count;
        sum = mul (of_int total) span.representative_count;
      }

  -- The resource that a span is measured under.
  unfoldable pub resource_of : Option DestinationService → Option String
  resource_of none = none
  resource_of (some service) = if str_eq service.resource "" then none else some service.resource

  unfoldable pub process_resource :
      Aggregator → ApmEvent F → Span F → Option String → Aggregator × ApmEvent F
  unfolding span_metrics
  process_resource a event span none = (a, zero_event F)
  process_resource a event span (some resource) =
      if leb_float span.representative_count (of_int (pos 0))
      then (a, zero_event F)
      else store a (make_aggregation_key event resource (nonneg a.config.interval))
          (span_metrics span event.duration)

  -- `processSpan`, which panics on an event without a span.
  unfoldable pub process_span :
      Aggregator → ApmEvent F → Option (Span F) → Option (Aggregator × ApmEvent F)
  unfolding resource_of process_resource
  process_span a event none = none
  process_span a event (some span) =
      some (process_resource a event span (resource_of span.destination_service))

  unfoldable pub dropped_metrics : Transaction F → DroppedSpanStats → SpanMetrics F
  dropped_metrics tx dss = record {
    count = mul (of_int dss.duration.count) tx.representative_count;
    sum = mul (of_int dss.duration.sum) tx.representative_count;
  }

  -- `processDroppedSpanStats`
  unfoldable pub process_dropped_span_stats :
      Aggregator → ApmEvent F → Transaction F → DroppedSpanStats → Aggregator × ApmEvent F
  unfolding dropped_metrics
  process_dropped_span_stats a event tx dss =
      if leb_float tx.representative_count (of_int (pos 0))
      then (a, zero_event F)
      else store a
          (make_aggregation_key event dss.destination_service_resource (nonneg a.config.interval))
          (dropped_metrics tx dss)

  has_metricset : Option Metricset → Bool
  has_metricset none = false
  has_metricset (some m) = true

  -- The test on the returned event, and its place in the batch.
  unfoldable pub if_metricset : ApmEvent F → List (ApmEvent F)
  unfolding has_metricset
  if_metricset event = if has_metricset event.metricset then event ∷ [] else []

  unfoldable pub process_dropped :
      Aggregator
      → ApmEvent F
      → Transaction F
      → List DroppedSpanStats
      → Aggregator × List (ApmEvent F)
  process_dropped a event tx [] = (a, [])
  process_dropped a event tx (dss ∷ rest) =
      let (b, ms) = process_dropped_span_stats a event tx dss in
      let (c, more) = process_dropped b event tx rest in (c, if_metricset ms ++ more)

  unfoldable pub process_transaction :
      Aggregator → ApmEvent F → Option (Transaction F) → Aggregator × List (ApmEvent F)
  process_transaction a event none = (a, [])
  process_transaction a event (some tx) = process_dropped a event tx tx.dropped_spans_stats

  unfoldable pub process_by :
      Aggregator → ApmEvent F → Processor → Option (Aggregator × List (ApmEvent F))
  process_by a event span_processor = do
    (b, ms) ← process_span a event event.span
    some (b, if_metricset ms)
  process_by a event transaction_processor = some (process_transaction a event event.transaction)
  process_by a event _ = some (a, [])

  -- One iteration of the loop of `ProcessBatch`.
  unfoldable pub process_event : Aggregator → ApmEvent F → Option (Aggregator × List (ApmEvent F))
  unfolding process_by
  process_event a event = process_by a event event.processor

  unfoldable pub process_events :
      Aggregator → List (ApmEvent F) → Option (Aggregator × List (ApmEvent F))
  process_events a [] = some (a, [])
  process_events a (event ∷ events) = do
    (b, ms) ← process_event a event
    (c, rest) ← process_events b events
    some (c, ms ++ rest)

  unfoldable pub process_batch :
      Aggregator → List (ApmEvent F) → Option (Aggregator × List (ApmEvent F))
  process_batch a batch = do (b, metricsets) ← process_events a batch; some (b, batch ++ metricsets)

  unfoldable pub map_metricsets : List (AggregationKey × SpanMetrics F) → List (ApmEvent F)
  map_metricsets [] = []
  map_metricsets ((key, metrics) ∷ m) = make_metricset key metrics ∷ map_metricsets m

  -- `publish`: the aggregator with its periods swapped, and the batch that is passed on, if any.
  -- Go visits the map in no particular order.
  unfoldable pub publish : Aggregator → Aggregator × Option (List (ApmEvent F))
  unfolding map_metricsets
  publish a =
      let full = a.active in
      if length full.m == 0 then (record a { active = a.inactive; inactive = full }, none) else (
        record a { active = a.inactive; inactive = record full { m = [] } },
        some (map_metricsets full.m),
      )
