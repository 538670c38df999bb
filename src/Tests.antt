-- ===== src/Tests.antt =====
-- The theorems at concrete inputs, and tests of the definitions.
pub mod Fixtures
pub mod Storage
pub mod Shards
pub mod Streams
pub mod Requests
pub mod ApiKeys
pub mod Groups
pub mod Transactions
pub mod Spans
pub mod Traces
pub mod TailSampling
pub mod Decisions
pub mod Unsampled
