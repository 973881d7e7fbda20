-- ===== src/Journal.antt =====
-- src/forest_journal.rs: the write-ahead journal of block updates.
pub mod Entry
pub mod Marker
pub mod Record
pub mod Log
