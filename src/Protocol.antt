-- ===== src/Protocol.antt =====
-- include/hft/protocol: the order model, and the components that read and guard the feed.
pub mod ParsedOrder
pub mod GapDetector
pub mod Reorder
pub mod Risk
pub mod FlatBook
pub mod Recovery
pub mod FixParser
pub mod ProtocolParser
