-- ===== src/ModelProcessor.antt =====
-- model/modelprocessor: processors of batches of events.
pub mod DropUnsampled
