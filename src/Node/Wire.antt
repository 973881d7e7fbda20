-- ===== src/Node/Wire.antt =====
-- src/node.rs: the messages behind the encrypted transport (`V2Codec`).
pub mod Messages
pub mod Decode
pub mod Accepted
pub mod Limits
pub mod RoundTrip
pub mod Proofs
