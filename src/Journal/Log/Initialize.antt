-- ===== src/Journal/Log/Initialize.antt =====
-- src/forest_journal.rs: `initialize_journal` where there are no legacy records: the superblock and
-- the two markers.
use rpc_utreexo_bridge.Base.{ℕ, ◌*◌, List, [], ◌∷◌, ◌++◌, replicate}
use rpc_utreexo_bridge.Bytes.{to_le_bytes}
use rpc_utreexo_bridge.Bytes.Segments.{concat}
use rpc_utreexo_bridge.File.{File, write_all_at, set_len, empty_file}
use rpc_utreexo_bridge.Journal.Marker.Defs.{
  PublicationMarker, publication_slot_size, write_publication_marker,
}
use rpc_utreexo_bridge.Journal.Record.Types.{empty_boundary}
use rpc_utreexo_bridge.Journal.Record.Disk.{wal_magic}

-- Bytes 0 to 63 of the superblock.
abbrev pub superblock_segments : ℕ → List ℕ → List (List ℕ)
superblock_segments page_size journal_id =
    wal_magic ∷ to_le_bytes 8 page_size ∷ journal_id ∷ replicate 16 0 ∷ []

unfoldable pub superblock_bytes : (List ℕ → List ℕ) → ℕ → List ℕ → List ℕ
superblock_bytes sha256 page_size journal_id = concat (
    superblock_segments page_size journal_id
    ++ (sha256 (concat (superblock_segments page_size journal_id)) ∷ []))

abbrev pub first_marker : ℕ → List ℕ → ℕ → PublicationMarker
first_marker page_size journal_id generation = record {
  generation = generation;
  replay_start = page_size;
  boundary = empty_boundary journal_id 0 page_size;
}

unfoldable pub initial_file : (List ℕ → List ℕ) → ℕ → List ℕ → File
initial_file sha256 page_size journal_id =
    write_all_at (set_len empty_file page_size) 0 (superblock_bytes sha256 page_size journal_id)

-- `for generation in 0..2`
unfoldable pub initial_marker_file : (List ℕ → List ℕ) → ℕ → List ℕ → File
initial_marker_file sha256 page_size journal_id =
    write_publication_marker sha256
      (write_publication_marker sha256 (set_len empty_file (publication_slot_size * 2))
        (first_marker page_size journal_id 0))
      (first_marker page_size journal_id 1)

-- The journal file and the marker file, where the loop over legacy records has none to import;
-- `journal_id` is read from `/dev/urandom`.
unfoldable pub initialize_journal : (List ℕ → List ℕ) → ℕ → List ℕ → File × File
unfolding initial_file initial_marker_file
initialize_journal sha256 page_size journal_id =
    (initial_file sha256 page_size journal_id, initial_marker_file sha256 page_size journal_id)
