-- ===== src/Node.antt =====
-- src/node.rs: the peer-to-peer server.
pub mod RateLimiter
pub mod Address
pub mod Registry
pub mod Wire
pub mod Headers
