-- ===== src/Journal/Log.antt =====
-- src/forest_journal.rs: `ForestJournal`, `JournalPublisher` and `JournalPrune`: the journal with its
-- published prefix, and what is found on disk when it is opened.
pub mod State
pub mod Operations
pub mod Chain
pub mod Open
pub mod Sound
pub mod Recover
pub mod Append
pub mod AppendBlock
pub mod Published
pub mod Publish
pub mod Prune
pub mod Advance
pub mod Finish
pub mod Discard
pub mod Rolled
pub mod Rollback
pub mod Initialize
pub mod Fresh
pub mod Reopen
pub mod Floor
pub mod Reachable
pub mod Recovered
pub mod Progress
