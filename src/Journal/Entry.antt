-- ===== src/Journal/Entry.antt =====
-- src/forest_journal.rs: `JournalEntry` with its parts, and its byte layout (`encode_entry_into`,
-- `decode_entry` and their helpers).
pub mod Types
pub mod Encode
pub mod Decode
pub mod Layout
pub mod RoundTrip
pub mod Parts
pub mod Canonical
