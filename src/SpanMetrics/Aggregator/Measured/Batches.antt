-- ===== src/SpanMetrics/Aggregator/Measured/Batches.antt =====
-- What becomes of a batch's measurements.
use apm_server.Prelude.{
  String, Option, none, some, true, false, List, [], ◌∷◌, ◌++◌, if◌then◌else◌, pos, All, ◌≡◌, refl,
  sym, ap, ◌∙◌, ◌>>=◌, arith, is_some, inl, inr, Bool-cases,
}
use apm_server.Prelude.Maps.{lookup}
use apm_server.Model.Float64.{Float64}
use apm_server.Model.Event.{
  ApmEvent, Span, Transaction, DroppedSpanStats, Processor, no_processor, span_processor,
  transaction_processor, metricset_processor, error_processor, other_processor,
}
use apm_server.SpanMetrics.Buffer.{
  AggregationKey, aggregation_key_eq, make_aggregation_key, SpanMetrics, MetricsBuffer,
  store_or_update,
}
use apm_server.SpanMetrics.Buffer.Bounds.{IsBounded}
use apm_server.SpanMetrics.Buffer.Gather.{
  gather, gathered, left_out, total, gather-left_out, gather-total, gathered-IsBounded,
}
use apm_server.SpanMetrics.Aggregator.{
  Aggregator, nonneg, make_metricset, store, span_metrics, resource_of, process_span,
  dropped_metrics, process_dropped_span_stats, if_metricset, process_dropped, process_event,
  process_events, process_batch, process_by, process_transaction, process_resource, map_metricsets,
}
use apm_server.SpanMetrics.Aggregator.Measured.{
  Measurements as MeasurementsOf, measured_span, measured_dropped, measured_from_span,
  measured_transaction, measured_by, measured_event, measured, spans_given, has_its_span,
}

module _ (fl : Float64) where
  open fl use {F, of_int, leb as leb_float}

  abbrev Measurements : Type 0
  Measurements = MeasurementsOf fl

  -- The aggregator after some measurements, and a metricset for each that was refused.
  abbrev run : Aggregator fl → Measurements → Aggregator fl × List (ApmEvent F)
  run a xs =
      (record a { active = gathered fl a.active xs }, map_metricsets fl (gather fl a.active xs).1)

  metricsets-append :
      (xs ys : Measurements)
      → map_metricsets fl (xs ++ ys) ≡ map_metricsets fl xs ++ map_metricsets fl ys
  unfolding map_metricsets
  metricsets-append [] ys = refl
  metricsets-append ((k, v) ∷ xs) ys = ap (λ x. make_metricset fl k v ∷ x) (metricsets-append xs ys)

  gather-append :
      (mb : MetricsBuffer F) (xs ys : Measurements)
      → gather fl mb (xs ++ ys) ≡ (
        gathered fl (gathered fl mb xs) ys,
        (gather fl mb xs).1 ++ (gather fl (gathered fl mb xs) ys).1,
      )
  unfolding gather
  gather-append mb [] ys = refl
  gather-append mb ((k, v) ∷ xs) ys =
      rw (gather-append (store_or_update fl mb k v).0 xs ys) (ground arith)

  run-append :
      (a : Aggregator fl) (xs ys : Measurements)
      → run a (xs ++ ys) ≡ ((run (run a xs).0 ys).0, (run a xs).1 ++ (run (run a xs).0 ys).1)
  run-append a xs ys =
      ap (λ r. (record a { active = r.0 }, map_metricsets fl r.1)) (gather-append a.active xs ys)
      ∙ ap (λ ms. ((run (run a xs).0 ys).0, ms))
          (metricsets-append (gather fl a.active xs).1 (gather fl (gathered fl a.active xs) ys).1)

  run_nil : (a : Aggregator fl) → run a [] ≡ (a, [])
  unfolding gather map_metricsets
  run_nil a = refl

  run-store :
      (a : Aggregator fl) (k : AggregationKey) (v : SpanMetrics F) (xs : Measurements)
      → run a ((k, v) ∷ xs) ≡ (
        (run (store fl a k v).0 xs).0,
        if_metricset fl (store fl a k v).1 ++ (run (store fl a k v).0 xs).1,
      )
  unfolding store gather map_metricsets if_metricset make_metricset
  run-store a k v xs = elim (Bool-cases (store_or_update fl a.active k v).1) [
    | inl p ↦ rw p refl
    | inr p ↦ rw p refl
  ]

  store-run :
      (a : Aggregator fl) (k : AggregationKey) (v : SpanMetrics F)
      → ((store fl a k v).0, if_metricset fl (store fl a k v).1) ≡ run a ((k, v) ∷ [])
  unfolding store gather map_metricsets if_metricset make_metricset
  store-run a k v = elim (Bool-cases (store_or_update fl a.active k v).1) [
    | inl p ↦ rw p refl
    | inr p ↦ rw p refl
  ]

  process_dropped-run :
      (a : Aggregator fl) (event : ApmEvent F) (tx : Transaction F)
      (dropped : List DroppedSpanStats)
      → leb_float tx.representative_count (of_int (pos 0)) ≡ false
      → process_dropped fl a event tx dropped
        ≡ run a (measured_dropped fl (nonneg a.config.interval) event tx dropped)
  unfolding process_dropped process_dropped_span_stats measured_dropped store
  process_dropped-run a event tx [] h = sym (run_nil a)
  process_dropped-run a event tx (dss ∷ rest) h =
      let interval = nonneg a.config.interval in
      let key = make_aggregation_key event dss.destination_service_resource interval in
      let metrics = dropped_metrics fl tx dss in
      rw (h, process_dropped-run (store fl a key metrics).0 event tx rest h)
        (sym (run-store a key metrics (measured_dropped fl interval event tx rest)))

  process_dropped_none :
      (a : Aggregator fl) (event : ApmEvent F) (tx : Transaction F)
      (dropped : List DroppedSpanStats)
      → leb_float tx.representative_count (of_int (pos 0)) ≡ true
      → process_dropped fl a event tx dropped ≡ (a, [])
  unfolding process_dropped process_dropped_span_stats if_metricset
  process_dropped_none a event tx [] h = refl
  process_dropped_none a event tx (dss ∷ rest) h = rw (h, process_dropped_none a event tx rest h)

  process_resource-run :
      (a : Aggregator fl) (event : ApmEvent F) (span : Span F) (o : Option String)
      → (
        (process_resource fl a event span o).0,
        if_metricset fl (process_resource fl a event span o).1,
      )
        ≡ run a (measured_span fl (nonneg a.config.interval) event span o)
  unfolding process_resource measured_span if_metricset
  process_resource-run a event span none = sym (run_nil a)
  process_resource-run a event span (some resource) =
      elim (Bool-cases (leb_float span.representative_count (of_int (pos 0)))) [
        | inl p ↦ rw (p, run_nil a) refl
        | inr p ↦
            let key = make_aggregation_key event resource (nonneg a.config.interval) in
            rw p (store-run a key (span_metrics fl span event.duration))
      ]

  process_transaction-run :
      (a : Aggregator fl) (event : ApmEvent F) (o : Option (Transaction F))
      → process_transaction fl a event o
        ≡ run a (measured_transaction fl (nonneg a.config.interval) event o)
  unfolding process_transaction measured_transaction
  process_transaction-run a event none = sym (run_nil a)
  process_transaction-run a event (some tx) =
      elim (Bool-cases (leb_float tx.representative_count (of_int (pos 0)))) [
        | inl p ↦ rw p (process_dropped_none a event tx tx.dropped_spans_stats p ∙ sym (run_nil a))
        | inr p ↦ rw p (process_dropped-run a event tx tx.dropped_spans_stats p)
      ]

  process_span-run :
      (a : Aggregator fl) (event : ApmEvent F) (o : Option (Span F))
      → is_some o ≡ true
      → (do (b, ms) ← process_span fl a event o; some (b, if_metricset fl ms))
        ≡ some (run a (measured_from_span fl (nonneg a.config.interval) event o))
  unfolding process_span measured_from_span
  process_span-run a event none h = cc
  process_span-run a event (some span) h =
      ap some (process_resource-run a event span (resource_of fl span.destination_service))

  process_by-run :
      (a : Aggregator fl) (event : ApmEvent F) (p : Processor)
      → spans_given fl event p ≡ true
      → process_by fl a event p ≡ some (run a (measured_by fl (nonneg a.config.interval) event p))
  unfolding process_by measured_by
  process_by-run a event span_processor h = process_span-run a event event.span h
  process_by-run a event transaction_processor h =
      ap some (process_transaction-run a event event.transaction)
  process_by-run a event no_processor h = ap some (sym (run_nil a))
  process_by-run a event metricset_processor h = ap some (sym (run_nil a))
  process_by-run a event error_processor h = ap some (sym (run_nil a))
  process_by-run a event (other_processor name) h = ap some (sym (run_nil a))

  process_event-run :
      (a : Aggregator fl) (event : ApmEvent F)
      → has_its_span fl event ≡ true
      → process_event fl a event ≡ some (run a (measured_event fl (nonneg a.config.interval) event))
  unfolding process_event measured_event
  process_event-run a event h = process_by-run a event event.processor h

  process_events-run :
      (a : Aggregator fl) (events : List (ApmEvent F))
      → All (λ e. has_its_span fl e ≡ true) events
      → process_events fl a events ≡ some (run a (measured fl (nonneg a.config.interval) events))
  unfolding process_events measured gather map_metricsets
  process_events-run a [] h = refl
  process_events-run a (event ∷ events) h =
      rw
        (
          process_event-run a event h.0,
          process_events-run (run a (measured_event fl (nonneg a.config.interval) event)).0 events
              h.1,
        )
        (ap some (
          sym (
            run-append a (measured_event fl (nonneg a.config.interval) event)
              (measured fl (nonneg a.config.interval) events))))

  -- The metrics that a batch adds, if every span event has its span and the active buffer is within
  -- its maximum: the batch is processed without a panic. What it is measured as goes into the active
  -- buffer, which stays within its maximum. A key that has a group then has all its measurements
  -- there, combined in order, on top of what it had. The batch gains exactly the metricsets of the
  -- measurements whose key has no group then.
  pub process_batch-measured :
      (a : Aggregator fl) (batch : List (ApmEvent F))
      → IsBounded fl a.active
      → All (λ e. has_its_span fl e ≡ true) batch
      → (a' : Aggregator fl) × (process_batch fl a batch
          ≡ some (
            a',
            batch
                ++ map_metricsets fl
                    (left_out fl a'.active (measured fl (nonneg a.config.interval) batch)),
          ))
        × IsBounded fl a'.active
        × ((q : AggregationKey)
            → lookup q a'.active.m ≡ (
                if is_some (lookup q a'.active.m)
                then total fl q (lookup q a.active.m) (measured fl (nonneg a.config.interval) batch)
                else none))
  unfolding process_batch
  process_batch-measured a batch b spans =
      let xs = measured fl (nonneg a.config.interval) batch in
      (
        (run a xs).0,
        rw (process_events-run a batch spans, gather-left_out fl a.active xs b) refl,
        gathered-IsBounded fl a.active xs b,
        λ q. elim (Bool-cases (is_some (lookup q (gathered fl a.active xs).m))) [
          | inl p ↦ rw p (gather-total fl a.active xs q b p)
          | inr p ↦ ground arith
        ],
      )
