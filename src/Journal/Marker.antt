-- ===== src/Journal/Marker.antt =====
-- src/forest_journal.rs: the publication marker, which names the published prefix of the journal,
-- and its two slots on disk.
pub mod Defs
pub mod Slot
pub mod Recovery
