-- ===== src/Matching/ZeroAlloc.antt =====
-- include/hft/matching/ZeroAllocHftOrderBook.hpp: the order book in fixed arrays. Level holds the ring
-- of orders at one price, Side the pool of levels with its free list and the sorted row of pointers,
-- Book the matching loops, Depth the queries. Bids and asks are mirror images in the source: here one
-- definition over the side. A pointer to a level is its index in the pool of its side.
--
-- The proofs: Ring and Append on one level, Pool, Place and Grow on the pool, Fills, Strike and
-- Sweep on the inner loop, Round and Cross on the outer one, Find, Insert and Rest on the insertion,
-- Submit and Reference on whole orders, Queries on the queries.
pub mod Level
pub mod Ring
pub mod Side
pub mod Book
pub mod Depth
pub mod Texts
pub mod Reports
pub mod Fills
pub mod Strike
pub mod Sweep
pub mod Pool
pub mod Round
pub mod Cross
pub mod Append
pub mod Find
pub mod Insert
pub mod Place
pub mod Grow
pub mod Rest
pub mod Submit
pub mod Reference
pub mod Queries
mod Tests
