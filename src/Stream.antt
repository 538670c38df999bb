-- ===== src/Stream.antt =====
-- processor/stream: the events of a request.
pub mod Results
pub mod EventType
pub mod Batches
