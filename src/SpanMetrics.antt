-- ===== src/SpanMetrics.antt =====
-- x-pack/apm-server/aggregation/spanmetrics/aggregator.go: metrics of the spans that leave a
-- service, by destination. Locks are not part of the state: an operation is one step.
pub mod Buffer
pub mod Aggregator
