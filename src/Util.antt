-- ===== src/Util.antt =====
-- src/util: retry policy and backpressure queue.
pub mod Retry
pub mod Backpressure
