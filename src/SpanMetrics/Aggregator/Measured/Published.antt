-- ===== src/SpanMetrics/Aggregator/Measured/Published.antt =====
-- What is published of a batch's measurements.
use apm_server.Prelude.{
  ◌-◌, ◌%◌, Option, none, some, true, List, [], ◌∷◌, if◌then◌else◌, length, All, ◌≡◌, ◌≢◌, refl, ap,
  subst, ◌∙◌, arith, is_some, Member,
}
use apm_server.Prelude.Maps.{lookup, lookup-Member}
use apm_server.Model.Float64.{Float64}
use apm_server.Model.Event.{
  ApmEvent, Span, DestinationService, Metricset, metricset_processor, truncate,
}
use apm_server.SpanMetrics.Buffer.{
  make_aggregation_key, AggregationKey, aggregation_key_eq, SpanMetrics, MetricsBuffer,
}
use apm_server.SpanMetrics.Buffer.Bounds.{IsBounded}
use apm_server.SpanMetrics.Buffer.Gather.{total}
use apm_server.SpanMetrics.Aggregator.{
  Aggregator, nonneg, make_metricset, process_batch, map_metricsets, publish,
}
use apm_server.SpanMetrics.Aggregator.Measured.{
  Measurements as MeasurementsOf, measured, has_its_span,
}
use apm_server.SpanMetrics.Aggregator.Measured.Batches.{process_batch-measured}

module _ (fl : Float64) where
  open fl use {F, round_int}

  abbrev Measurements : Type 0
  Measurements = MeasurementsOf fl

  -- An event that describes a group: a metricset whose own aggregation key is the group's, with its
  -- count and its sum, rounded.
  pub record Describes (k : AggregationKey) (v : SpanMetrics F) (e : ApmEvent F) : Type 0 where
    span : Span F
    service : DestinationService
    metricset : Metricset
    processor : e.processor ≡ metricset_processor
    has_metricset : e.metricset ≡ some metricset
    has_span : e.span ≡ some span
    has_service : span.destination_service ≡ some service
    same_key : make_aggregation_key e service.resource 1 ≡ k
    count : service.response_time.count ≡ round_int v.count
    sum : service.response_time.sum ≡ round_int v.sum

  make_metricset-Describes :
      (k : AggregationKey) (v : SpanMetrics F) → Describes k v (make_metricset fl k v)
  unfolding make_metricset make_aggregation_key truncate
  make_metricset-Describes k v =
      let instant : k.timestamp - k.timestamp % 1 ≡ k.timestamp = omega arith in
      record {
        span = _;
        service = _;
        metricset = _;
        processor = refl;
        has_metricset = refl;
        has_span = refl;
        has_service = refl;
        same_key = ap (λ t. record k { timestamp = t }) instant;
        count = refl;
        sum = refl;
      }

  abbrev ended : MetricsBuffer F → MetricsBuffer F
  ended mb = record mb { m = [] }

  length-map_metricsets : (m : Measurements) → length (map_metricsets fl m) ≡ length m
  unfolding map_metricsets
  length-map_metricsets [] = refl
  length-map_metricsets ((k, v) ∷ m) = omega (arith, length-map_metricsets m)

  map_metricsets-Member :
      (k : AggregationKey) (v : SpanMetrics F) (m : Measurements)
      → Member (k, v) m
      → Member (make_metricset fl k v) (map_metricsets fl m)
  unfolding map_metricsets
  map_metricsets-Member k v [] h = elim h [ ]
  map_metricsets-Member k v ((j, w) ∷ m) (Member.head e) =
      Member.head (ap (λ p. make_metricset fl p.0 p.1) e)
  map_metricsets-Member k v ((j, w) ∷ m) (Member.tail h) =
      Member.tail (map_metricsets-Member k v m h)

  found :
      (o t : Option (SpanMetrics F)) (v : SpanMetrics F)
      → o ≡ (if is_some o then t else none)
      → is_some o ≡ true
      → t ≡ some v
      → o ≡ some v
  found none t v h p f = cc
  found (some x) t v h p f = h ∙ f

  -- What a batch measures is what is published at the end of the period, if every span event has
  -- its span, the active buffer is within its maximum, and it has groups after the batch. There are
  -- as many metricsets as groups. Each key that has a group then has a metricset, whose own
  -- aggregation key it is, with the rounded count and sum of all its measurements in the batch,
  -- combined in order, on top of what it had before. The buffer is empty afterwards, with the same
  -- maximum, and the other period's becomes the active one.
  pub publish_spans :
      (a a' : Aggregator fl) (batch batch' : List (ApmEvent F))
      → IsBounded fl a.active
      → All (λ e. has_its_span fl e ≡ true) batch
      → process_batch fl a batch ≡ some (a', batch')
      → length a'.active.m ≢ 0
      → (published : List (ApmEvent F)) × ((publish fl a').1 ≡ some published)
        × (length published ≡ length a'.active.m)
        × ((q : AggregationKey) (v : SpanMetrics F)
            → is_some (lookup q a'.active.m) ≡ true
            → total fl q (lookup q a.active.m) (measured fl (nonneg a.config.interval) batch)
              ≡ some v
            → (e : ApmEvent F) × Member e published × Describes q v e)
        × ((publish fl a').0.inactive ≡ ended a'.active)
        × ((publish fl a').0.active ≡ a'.inactive)
  unfolding publish
  publish_spans a a' batch batch' b spans e some_groups =
      let (a1, e1, bounded, totals) = process_batch-measured fl a batch b spans in
      let same : a1 ≡ a' = cc in
      let xs = measured fl (nonneg a.config.interval) batch in
      (
        map_metricsets fl a'.active.m,
        ground arith,
        length-map_metricsets a'.active.m,
        λ q v grouped t.
            let combined =
              subst
                (λ c. lookup q c.active.m ≡ (
                  if is_some (lookup q c.active.m)
                  then total fl q (lookup q a.active.m) xs
                  else none))
                same (totals q) in
            let kept =
              found (lookup q a'.active.m) (total fl q (lookup q a.active.m) xs) v combined grouped
                t in
            (
              make_metricset fl q v,
              map_metricsets-Member q v a'.active.m (lookup-Member q v a'.active.m kept),
              make_metricset-Describes q v,
            ),
        ground arith,
        ground arith,
      )
