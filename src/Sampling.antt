-- ===== src/Sampling.antt =====
-- x-pack/apm-server/sampling: which traces are sampled at their end.
pub mod Policies
pub mod ItemHeap
pub mod Reservoir
pub mod Groups
pub mod Storage
pub mod EventStore
pub mod Processor
