-- ===== src/Journal/Log/Operations.antt =====
-- src/forest_journal.rs: the operations of the journal. The outcome of each call on a file, and
-- whether a flush succeeded, are arguments.
use rpc_utreexo_bridge.Base.{
  ℕ, zero, suc, ◌+◌, ◌-◌, ◌%◌, ◌^◌, ◌||◌, not, Bool, true, false, List, [], ◌∷◌, ◌++◌, leb, ltb,
  ◌==◌, if◌then◌else◌, Option, none, some, length, drop, get_elem?, Result, ok, err, checked_add,
}
use rpc_utreexo_bridge.Bytes.{bytes_eq}
use rpc_utreexo_bridge.File.{File, Outcome, done, failed, write_all_at, set_len, punch_hole}
use rpc_utreexo_bridge.Consensus.{BitcoinConsensus}
use rpc_utreexo_bridge.Journal.Entry.Types.{JournalEntry}
use rpc_utreexo_bridge.Journal.Marker.Defs.{
  JournalBoundary, PublicationMarker, boundary_eq, write_publication_marker,
}
use rpc_utreexo_bridge.Journal.Record.Types.{
  BlockHeader, JournalReplayPayload, JournalRecord, rolled_back, to_byte, RecordError,
}
use rpc_utreexo_bridge.Journal.Record.Payload.{
  header_matches, encode_payload, record_version, is_none,
}
use rpc_utreexo_bridge.Journal.Record.Disk.{
  WriteOutcome, write_record, validate_boundary, status_offset,
}
use rpc_utreexo_bridge.Journal.Log.State.{
  LogError, poisoned_journal, record_failed, truncate_failed, invalid_layouts, unmatched_header,
  stale_boundary, conflicting_boundary, flush_failed, generation_overflow, marker_write_failed,
  marker_flush_failed, unpublished_tail, not_published, status_write_failed, truncate_io_failed,
  prune_past_boundary, reclaim_failed, clone_failed, ForestJournal, JournalPrune, records_through,
  published_records, is_forward, boundary, and_then,
}

-- `fallocate` with `FALLOC_FL_PUNCH_HOLE`: the range was deallocated, or the file system does not
-- support it, or it failed with another error.
pub data Reclaim : Type 0 where
  punched unsupported : Reclaim
  refused : File → Reclaim

module _ {H : Type 0} where
  -- The records with the status of one of them changed.
  unfoldable pub roll_back_at : List (JournalRecord H) → ℕ → List (JournalRecord H)
  roll_back_at [] index = []
  roll_back_at (r ∷ rs) zero = record r { status = rolled_back } ∷ rs
  roll_back_at (r ∷ rs) (suc index) = r ∷ roll_back_at rs index

  -- One round: `if forward >= keep.max(1) { count = index; break; }`
  abbrev pub prune_step : ℕ → ℕ → JournalRecord H → ℕ × Option ℕ → ℕ × Option ℕ
  prune_step keep index r (met, some count) = (met, some count)
  prune_step keep index r (met, none) =
      if is_forward r.status
      then (met + 1, if leb (if leb keep 1 then 1 else keep) (met + 1) then some index else none)
      else (met, none)

  -- The loop of `prepare_prune` from the last record to the first: the number of forward records
  -- met, and the index where the loop was left.
  unfoldable pub prune_point : ℕ → ℕ → List (JournalRecord H) → ℕ × Option ℕ
  prune_point keep index [] = (0, none)
  prune_point keep index (r ∷ rs) = prune_step keep index r (prune_point keep (index + 1) rs)

  abbrev pub start_prune : ForestJournal H → Option ℕ → ForestJournal H × Option JournalPrune
  start_prune j none = (j, none)
  start_prune j (some count) = if count == 0 then (j, none) else elim (get_elem? j.records count) [
    | none ↦ (j, none)
    | some r ↦ (
      record j { records = drop count j.records },
      some (record { replay_start = r.offset; count = count }),
    )
  ]

  -- The publisher that the pruning takes with it needs clones of the files; it is made before the
  -- records are drained.
  abbrev pub hand_over :
      Bool
      → ForestJournal H
      → ForestJournal H × Option JournalPrune
      → ForestJournal H × Result LogError (Option JournalPrune)
  hand_over cloned j (j', none) = (j', ok none)
  hand_over true j (j', some p) = (j', ok (some p))
  hand_over false j (j', some p) = (j, err clone_failed)

  unfoldable pub prepare_prune :
      Bool → ForestJournal H → ℕ → ForestJournal H × Result LogError (Option JournalPrune)
  prepare_prune cloned j keep =
      if j.poisoned
      then (j, err poisoned_journal)
      else hand_over cloned j (start_prune j (prune_point keep 0 (published_records j)).1)

  abbrev pub discard : Outcome → ForestJournal H → ForestJournal H × Result LogError (Unit {0})
  discard (failed left) j = (record j { file = left }, err truncate_io_failed)
  discard done j = (
    record j {
      file = set_len j.file j.marker.boundary.end;
      records = records_through j.marker.boundary.end j.records;
      appended_end = j.marker.boundary.end;
      epoch = (j.epoch + 1) % 2 ^ 64;
    },
    ok tt,
  )

  unfoldable pub discard_unpublished :
      Outcome → ForestJournal H → ForestJournal H × Result LogError (Unit {0})
  discard_unpublished cut j = if j.poisoned then (j, err poisoned_journal) else discard cut j

  -- The write of the status byte, and the flush behind it.
  abbrev pub set_status :
      Outcome
      → Bool
      → ForestJournal H
      → ℕ
      → JournalRecord H
      → ForestJournal H × Result LogError (Unit {0})
  set_status (failed left) synced j index r =
      (record j { file = left; poisoned = true }, err status_write_failed)
  set_status done false j index r = (
    record j {
      file = write_all_at j.file (r.offset + status_offset) (to_byte rolled_back ∷ []);
      poisoned = true;
    },
    err status_write_failed,
  )
  set_status done true j index r = (
    record j {
      file = write_all_at j.file (r.offset + status_offset) (to_byte rolled_back ∷ []);
      records = roll_back_at j.records index;
      needs_replay = true;
    },
    ok tt,
  )

  unfoldable pub mark_rolled_back :
      Outcome → Bool → ForestJournal H → ℕ → ForestJournal H × Result LogError (Unit {0})
  mark_rolled_back write synced j index =
      if j.poisoned
      then (j, err poisoned_journal)
      else if not (j.appended_end == j.published_end)
      then (j, err unpublished_tail)
      else if leb (length (published_records j)) index
      then (j, err not_published)
      else elim (get_elem? j.records index) [
        | none ↦ (j, err not_published)
        | some r ↦ set_status write synced j index r
      ]

  -- The tests of `mark_clean_shutdown`, which come before it writes the clean marker.
  unfoldable pub may_mark_clean : ForestJournal H → Result LogError (Unit {0})
  may_mark_clean j =
      if j.poisoned
      then err poisoned_journal
      else if j.appended_end == j.published_end
      then ok tt
      else err unpublished_tail

  -- The boundary is of another journal or epoch, or outside of what may be published.
  unfoldable pub is_stale : ForestJournal H → JournalBoundary → Bool
  is_stale j b =
      not (bytes_eq b.journal_id j.journal_id)
      || (not (b.epoch == j.epoch) || (ltb b.end j.marker.boundary.end || ltb j.appended_end b.end))

module _ {H : Type 0} (sha256 : List ℕ → List ℕ) where
  -- The generation behind that of the marker, and a write of the marker with it.
  abbrev pub store_marker :
      Outcome
      → Bool
      → ForestJournal H
      → PublicationMarker
      → ForestJournal H × Result LogError (Unit {0})
  store_marker (failed left) synced j next =
      (record j { marker_file = left; poisoned = true }, err marker_write_failed)
  store_marker done false j next = (
    record j { marker_file = write_publication_marker sha256 j.marker_file next; poisoned = true },
    err marker_flush_failed,
  )
  store_marker done true j next = (
    record j { marker_file = write_publication_marker sha256 j.marker_file next; marker = next },
    ok tt,
  )

  -- The data flush and the marker of `publish`; every failure poisons the journal.
  abbrev pub commit :
      Bool
      → Outcome
      → Bool
      → ForestJournal H
      → JournalBoundary
      → ForestJournal H × Result LogError (Unit {0})
  commit false write flushed j b = (record j { poisoned = true }, err flush_failed)
  commit true write flushed j b = elim (checked_add j.marker.generation 1) [
    | none ↦ (record j { poisoned = true }, err generation_overflow)
    | some g ↦
        and_then
          (store_marker write flushed j
            (record { generation = g; replay_start = j.marker.replay_start; boundary = b }))
          (λ j' _. (record j' { published_end = b.end }, ok tt))
  ]

  unfoldable pub publish :
      Bool
      → Outcome
      → Bool
      → ForestJournal H
      → JournalBoundary
      → ForestJournal H × Result LogError (Unit {0})
  publish synced write flushed j b =
      if j.poisoned
      then (j, err poisoned_journal)
      else if is_stale j b
      then (j, err stale_boundary)
      else if b.end == j.marker.boundary.end
      then (
        j,
        if boundary_eq (record j.marker.boundary { epoch = b.epoch }) b
            then ok tt
            else err conflicting_boundary,
      )
      else elim (validate_boundary sha256 j.file j.page_size b) [
        | err e ↦ (j, err (record_failed e))
        | ok _ ↦ commit synced write flushed j b
      ]

  -- One of the two markers that `finish` writes. An overflow of the generation does not poison.
  abbrev pub advance_marker :
      Outcome → Bool → ForestJournal H → ℕ → ForestJournal H × Result LogError (Unit {0})
  advance_marker write flushed j replay_start = elim (checked_add j.marker.generation 1) [
    | none ↦ (j, err generation_overflow)
    | some g ↦
        store_marker write flushed j
          (record { generation = g; replay_start = replay_start; boundary = j.marker.boundary })
  ]

  abbrev pub reclaim :
      Reclaim → ForestJournal H → ℕ → JournalPrune → ForestJournal H × Result LogError ℕ
  reclaim punched j old_start p =
      (record j { file = punch_hole j.file old_start (p.replay_start - old_start) }, ok p.count)
  reclaim unsupported j old_start p = (j, ok p.count)
  reclaim (refused left) j old_start p = (record j { file = left }, err reclaim_failed)

  unfoldable pub finish :
      Outcome × Bool
      → Outcome × Bool
      → Reclaim
      → ForestJournal H
      → JournalPrune
      → ForestJournal H × Result LogError ℕ
  finish first second hole j p =
      if j.poisoned
      then (j, err poisoned_journal)
      else if leb p.replay_start j.marker.replay_start
      then (j, ok p.count)
      else if ltb j.marker.boundary.offset p.replay_start
      then (j, err prune_past_boundary)
      else and_then (advance_marker first.0 first.1 j p.replay_start) (λ j1 _.
        and_then (advance_marker second.0 second.1 j1 p.replay_start)
          (λ j2 _. reclaim hole j2 j.marker.replay_start p))

module _ {H : Type 0} (sha256 : List ℕ → List ℕ) (c : BitcoinConsensus)
    (block : BlockHeader H) where
  -- What was written of a record is cut off again.
  abbrev pub undo_append :
      Outcome → ForestJournal H → RecordError → ForestJournal H × Result LogError ℕ
  undo_append done j e = (record j { file = set_len j.file j.appended_end }, err (record_failed e))
  undo_append (failed left) j e =
      (record j { file = left; poisoned = true }, err (truncate_failed e))

  abbrev pub settle :
      Outcome
      → ForestJournal H
      → File × Result RecordError (JournalRecord H)
      → ForestJournal H × Result LogError ℕ
  settle cut j (file', err e) = undo_append cut (record j { file = file' }) e
  settle cut j (file', ok r) = (
    record j {
      file = file';
      records = j.records ++ (r ∷ []);
      appended_end = r.offset + r.span;
      needs_replay = true;
    },
    ok (length j.records),
  )

  unfoldable pub append_payload :
      WriteOutcome
      → Outcome
      → ForestJournal H
      → JournalEntry
      → Option (JournalReplayPayload H)
      → List ℕ
      → ℕ
      → ForestJournal H × Result LogError ℕ
  append_payload io cut j entry replay payload format =
      if j.poisoned
      then (j, err poisoned_journal)
      else settle cut j (
          write_record sha256 c block io j.file j.page_size j.appended_end entry replay payload
            format)

  unfoldable pub append_block :
      WriteOutcome
      → Outcome
      → ForestJournal H
      → JournalEntry
      → JournalReplayPayload H
      → ForestJournal H × Result LogError JournalBoundary
  append_block io cut j entry replay =
      if is_none entry.forest_rows || ltb 63 replay.proof_forest_rows
      then (j, err invalid_layouts)
      else if not (header_matches c block replay.header entry)
      then (j, err unmatched_header)
      else elim (encode_payload c block entry replay) [
        | err e ↦ (j, err (record_failed e))
        | ok payload ↦
            and_then (append_payload io cut j entry (some replay) payload record_version)
              (λ j' _. (j', ok (boundary j')))
      ]
