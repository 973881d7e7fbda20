-- ===== src/Node/Registry.antt =====
-- src/node.rs: `PeerRegistry`, the admission of peers.
pub mod Defs
pub mod Allocate
pub mod Bounds
pub mod Prefixes
pub mod Eviction
pub mod Reachable
pub mod Bans
