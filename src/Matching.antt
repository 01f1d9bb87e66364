-- ===== src/Matching.antt =====
-- include/hft/matching: the price-time priority books and the engine that routes orders to them.
pub mod Book
pub mod Engine
pub mod ZeroAlloc
pub mod Worker
