-- ===== src/TxMetrics.antt =====
-- x-pack/apm-server/aggregation/txmetrics: transaction metrics.
pub mod Metrics
pub mod Key
pub mod Aggregator
