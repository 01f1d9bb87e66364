-- ===== src/Networking.antt =====
-- include/hft/networking: the arbitration of redundant feeds.
pub mod FeedArbitrator
