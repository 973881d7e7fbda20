-- ===== src/Journal/Log/State.antt =====
-- src/forest_journal.rs: `ForestJournal`, `PublicationState`, `JournalPublisher` and `JournalPrune`.
-- The publisher shares the state of the journal and its files, so that all three are one state here.
-- Every operation runs to its end before the next one starts: the operations that change the
-- marker hold its lock, and an append changes nothing that a publication in progress reads.
use rpc_utreexo_bridge.Base.{
  ℕ, ◌+◌, Bool, true, false, List, [], ◌∷◌, leb, if◌then◌else◌, Option, none, some, Result, ok, err,
}
use rpc_utreexo_bridge.File.{File}
use rpc_utreexo_bridge.Journal.Marker.Defs.{JournalBoundary, PublicationMarker, MarkerError}
use rpc_utreexo_bridge.Journal.Record.Types.{
  JournalRecord, JournalStatus, forward, rolled_back, RecordError, last_boundary,
}

-- One constructor for each message; every operation refuses a poisoned journal in its own words.
pub data LogError : Type 0 where
  poisoned_journal : LogError
  record_failed truncate_failed : RecordError → LogError
  marker_failed : MarkerError → LogError
  invalid_layouts unmatched_header : LogError
  stale_boundary conflicting_boundary flush_failed generation_overflow : LogError
  marker_write_failed marker_flush_failed : LogError
  unpublished_tail not_published status_write_failed truncate_io_failed : LogError
  prune_past_boundary reclaim_failed clone_failed : LogError
  data_truncated superblock_corrupt bad_page_size : LogError

pub record ForestJournal (H : Type 0) : Type 0 where
  pub file : File
  pub marker_file : File
  pub page_size : ℕ
  pub journal_id : List ℕ
  pub records : List (JournalRecord H)
  pub marker : PublicationMarker
  pub appended_end : ℕ
  pub published_end : ℕ
  pub epoch : ℕ
  pub poisoned : Bool
  pub needs_replay : Bool

pub record JournalPrune : Type 0 where
  pub replay_start : ℕ
  pub count : ℕ

abbrev pub is_forward : JournalStatus → Bool
is_forward forward = true
is_forward rolled_back = false

module _ {H : Type 0} where
  -- `partition_point(|record| record.offset + record.span <= end)`, then the records in front of it: the
  -- records of a journal lie one behind the other.
  unfoldable pub records_through : ℕ → List (JournalRecord H) → List (JournalRecord H)
  records_through end [] = []
  records_through end (r ∷ rs) =
      if leb (r.offset + r.span) end then r ∷ records_through end rs else []

  -- `records()`
  unfoldable pub published_records : ForestJournal H → List (JournalRecord H)
  published_records j = records_through j.published_end j.records

  abbrev pub behind : Bool → ℕ → JournalRecord H → Option (ℕ × JournalRecord H)
  behind true index r = some (index, r)
  behind false index r = none

  -- `iter().enumerate().rev().find(..)`, with the index of the first record.
  unfoldable pub last_forward : ℕ → List (JournalRecord H) → Option (ℕ × JournalRecord H)
  last_forward index [] = none
  last_forward index (r ∷ rs) = elim (last_forward (index + 1) rs) [
    | some found ↦ some found
    | none ↦ behind (is_forward r.status) index r
  ]

  unfoldable pub latest_forward : ForestJournal H → Option (ℕ × JournalRecord H)
  latest_forward j = last_forward 0 (published_records j)

  unfoldable pub boundary : ForestJournal H → JournalBoundary
  boundary j = last_boundary j.journal_id j.epoch j.page_size j.records

  -- A step that returned a value, and the one behind it: the `?` operator.
  abbrev pub and_then {ℓ κ} :
      {A : Type ℓ} {B : Type κ}
      → ForestJournal H × Result LogError A
      → (ForestJournal H → A → ForestJournal H × Result LogError B)
      → ForestJournal H × Result LogError B
  and_then (j, ok a) next = next j a
  and_then (j, err e) next = (j, err e)
