-- ===== src/Time.antt =====
-- kernel/src/time.rs: per-CPU deadlines and the conversions of the counter.
pub mod Event
pub mod Queue
pub mod Batch
pub mod State
pub mod Convert
