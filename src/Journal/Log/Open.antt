-- ===== src/Journal/Log/Open.antt =====
-- src/forest_journal.rs: `read_superblock`, and `ForestJournal::open` on a journal that has its
-- initialization header.
use Prim.Native.Nat.{bit_and}
use rpc_utreexo_bridge.Base.{
  ℕ, ◌-◌, ◌≤◌, ◌≡◌, refl, ◌&&◌, not, Bool, false, List, leb, ◌==◌, if◌then◌else◌, take, Result, ok,
  err, ◌>>=◌, ◌>>◌, guard, ok_or, arith,
}
use rpc_utreexo_bridge.Bytes.{from_le_bytes, bytes_eq}
use rpc_utreexo_bridge.Bytes.Segments.{slice}
use rpc_utreexo_bridge.File.{
  File, Outcome, done, failed, read_exact_at, read_exact_at_inside, set_len, SameOn, read-SameOn,
}
use rpc_utreexo_bridge.Consensus.{BitcoinConsensus}
use rpc_utreexo_bridge.Journal.Marker.Defs.{PublicationMarker, read_publication_marker}
use rpc_utreexo_bridge.Journal.Record.Types.{BlockHeader, JournalRecord}
use rpc_utreexo_bridge.Journal.Record.Disk.{wal_magic, scan_published}
use rpc_utreexo_bridge.Journal.Log.State.{
  LogError, record_failed, marker_failed, superblock_corrupt, bad_page_size, data_truncated,
  truncate_io_failed, ForestJournal,
}

-- `is_power_of_two`
unfoldable pub is_power_of_two : ℕ → Bool
is_power_of_two n = not (n == 0) && bit_and n (n - 1) == 0

unfoldable pub read_superblock : (List ℕ → List ℕ) → File → Result LogError (ℕ × List ℕ)
read_superblock sha256 file = do
  bytes ← ok_or (read_exact_at file 0 96) superblock_corrupt
  guard
      (bytes_eq (slice bytes 0 8) wal_magic
        && bytes_eq (sha256 (take 64 bytes)) (slice bytes 64 32))
      superblock_corrupt
  guard
      (leb 4096 (from_le_bytes (slice bytes 8 8))
        && (leb (from_le_bytes (slice bytes 8 8)) 65536
            && is_power_of_two (from_le_bytes (slice bytes 8 8))))
      bad_page_size
  ok (from_le_bytes (slice bytes 8 8), slice bytes 16 32)

-- A file that agrees on the superblock has the same one.
pub read_superblock-SameOn :
    (sha256 : List ℕ → List ℕ) (file file' : File)
    → SameOn file.byte_at file'.byte_at 0 96
    → 96 ≤ file.len
    → 96 ≤ file'.len
    → read_superblock sha256 file' ≡ read_superblock sha256 file
unfolding read_superblock
read_superblock-SameOn sha256 file file' same long long' =
    rw
      (
        read_exact_at_inside file' 0 96 long',
        read_exact_at_inside file 0 96 long,
        read-SameOn file.byte_at file'.byte_at 0 96 0 96 same (omega arith) (omega arith),
      )
      refl

-- The error of a step as an error of the journal.
abbrev pub into {ℓ} : {E : Type 0} {A : Type ℓ} → (E → LogError) → Result E A → Result LogError A
into wrap (ok a) = ok a
into wrap (err e) = err (wrap e)

module _ {H : Type 0} (sha256 : List ℕ → List ℕ) (c : BitcoinConsensus)
    (block : BlockHeader H) where
  -- What is read before the file is changed: the page size, the identity, the marker and the records.
  unfoldable pub recover :
      File → File → Result LogError (ℕ × List ℕ × PublicationMarker × List (JournalRecord H))
  recover file marker_file = do
    superblock ← read_superblock sha256 file
    marker ←
        into marker_failed (read_publication_marker sha256 marker_file superblock.1 superblock.0)
    guard (leb marker.boundary.end file.len) data_truncated
    records ← into record_failed (scan_published sha256 c block file superblock.0 marker)
    ok (superblock.0, superblock.1, marker, records)

  abbrev pub opened :
      File → File → Bool → ℕ × List ℕ × PublicationMarker × List (JournalRecord H) → ForestJournal H
  opened file marker_file clean (page_size, journal_id, marker, records) = record {
    file = file;
    marker_file = marker_file;
    page_size = page_size;
    journal_id = journal_id;
    records = records;
    marker = marker;
    appended_end = marker.boundary.end;
    published_end = marker.boundary.end;
    epoch = 0;
    poisoned = false;
    needs_replay = not clean;
  }

  -- The speculative suffix is cut off, when there is one.
  abbrev pub cut_suffix :
      Outcome → File → ℕ → (File → ForestJournal H) → Result LogError (ForestJournal H)
  cut_suffix done file end make = ok (make (if file.len == end then file else set_len file end))
  cut_suffix (failed left) file end make =
      if file.len == end then ok (make file) else err truncate_io_failed

  unfoldable pub open_journal : Outcome → Bool → File → File → Result LogError (ForestJournal H)
  open_journal cut clean file marker_file = do
    found ← recover file marker_file
    cut_suffix cut file found.2.boundary.end (λ f. opened f marker_file clean found)
