-- ===== src/Common.antt =====
-- include/hft/common: the queues between the threads, and the clock guard.
pub mod SpscQueue
pub mod ClockSynchronizer
