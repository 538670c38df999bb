-- ===== src/SpanMetrics/Aggregator/Measured.antt =====
-- What a batch is measured as.
pub mod Batches
pub mod Published
use apm_server.Prelude.{
  ℕ, ◌≤◌, String, Option, none, some, Bool, true, false, ◌||◌, not, List, [], ◌∷◌, ◌++◌,
  if◌then◌else◌, pos, length, All, ◌≡◌, ◌≢◌, refl, sym, ap, ◌∙◌, ◌>>=◌, arith, is_some, inl, inr,
  Bool-cases, Option-cases,
}
use apm_server.Prelude.Maps.{lookup}
use apm_server.Model.Float64.{Float64}
use apm_server.Model.Event.{
  ApmEvent, Span, Transaction, DroppedSpanStats, Processor, no_processor, span_processor,
  transaction_processor, metricset_processor, error_processor, other_processor, zero_event,
}
use apm_server.SpanMetrics.Buffer.{
  AggregationKey, aggregation_key_eq, make_aggregation_key, SpanMetrics, MetricsBuffer,
  store_or_update,
}
use apm_server.SpanMetrics.Buffer.Bounds.{IsBounded}
use apm_server.SpanMetrics.Buffer.Gather.{
  gather, gathered, left_out, total, gather-left_out, gather-total, gathered-IsBounded,
}
use apm_server.SpanMetrics.Aggregator.{
  Aggregator, nonneg, make_metricset, store, span_metrics, resource_of, process_span,
  dropped_metrics, process_dropped_span_stats, if_metricset, process_dropped, process_event,
  process_events, process_batch, process_by, process_transaction, process_resource, map_metricsets,
  publish,
}

module _ (fl : Float64) where
  open fl use {F, of_int, leb as leb_float}

  abbrev pub Measurements : Type 0
  Measurements = List (AggregationKey × SpanMetrics F)

  unfoldable pub measured_span : ℕ → ApmEvent F → Span F → Option String → Measurements
  measured_span interval event span none = []
  measured_span interval event span (some resource) =
      if leb_float span.representative_count (of_int (pos 0))
      then []
      else (make_aggregation_key event resource interval, span_metrics fl span event.duration) ∷ []

  unfoldable pub measured_dropped :
      ℕ → ApmEvent F → Transaction F → List DroppedSpanStats → Measurements
  measured_dropped interval event tx [] = []
  measured_dropped interval event tx (dss ∷ rest) =
      (
        make_aggregation_key event dss.destination_service_resource interval,
        dropped_metrics fl tx dss,
      )
      ∷ measured_dropped interval event tx rest

  -- A span's measurement, if it has a resource and a positive count.
  unfoldable pub measured_from_span : ℕ → ApmEvent F → Option (Span F) → Measurements
  unfolding measured_span
  measured_from_span interval event none = []
  measured_from_span interval event (some span) =
      measured_span interval event span (resource_of fl span.destination_service)

  -- Those of the spans that a transaction with a positive count dropped.
  unfoldable pub measured_transaction : ℕ → ApmEvent F → Option (Transaction F) → Measurements
  unfolding measured_dropped
  measured_transaction interval event none = []
  measured_transaction interval event (some tx) =
      if leb_float tx.representative_count (of_int (pos 0))
      then []
      else measured_dropped interval event tx tx.dropped_spans_stats

  unfoldable pub measured_by : ℕ → ApmEvent F → Processor → Measurements
  unfolding measured_from_span measured_transaction
  measured_by interval event span_processor = measured_from_span interval event event.span
  measured_by interval event transaction_processor =
      measured_transaction interval event event.transaction
  measured_by interval event _ = []

  unfoldable pub measured_event : ℕ → ApmEvent F → Measurements
  unfolding measured_by
  measured_event interval event = measured_by interval event event.processor

  unfoldable pub measured : ℕ → List (ApmEvent F) → Measurements
  measured interval [] = []
  measured interval (event ∷ events) = measured_event interval event ++ measured interval events

  abbrev pub spans_given : ApmEvent F → Processor → Bool
  spans_given event span_processor = is_some event.span
  spans_given event _ = true

  abbrev pub has_its_span : ApmEvent F → Bool
  has_its_span event = spans_given event event.processor
