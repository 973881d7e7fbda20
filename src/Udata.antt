-- ===== src/Udata.antt =====
-- src/udata.rs: compact leaf data, compact block proofs and their consensus encodings.
pub mod Types
pub mod Codec
pub mod RoundTrip
