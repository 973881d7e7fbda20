-- ===== src/Journal/Record.antt =====
-- src/forest_journal.rs: one record of the journal, its payload, its bytes on disk and the functions
-- that write, read and validate it.
pub mod Types
pub mod Payload
pub mod Disk
pub mod Plan
pub mod Write
pub mod Held
pub mod Stored
pub mod RoundTrip
pub mod Boundary
pub mod ReadBack
