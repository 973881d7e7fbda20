-- ===== src/Journal/Marker/Defs.antt =====
-- src/forest_journal.rs: `JournalBoundary`, `PublicationMarker`, and the functions that write and
-- read the marker file. SHA-256 is the parameter `sha256`.
use rpc_utreexo_bridge.Base.{
  ℕ, ◌*◌, ◌%◌, Bool, not, ◌&&◌, ◌||◌, Option, none, some, List, [], ◌∷◌, ◌++◌, ltb, leb, ◌==◌,
  if◌then◌else◌, take, Result, ok, err, ◌>>=◌,
}
use rpc_utreexo_bridge.Bytes.{to_le_bytes, from_le_bytes, bytes_eq}
use rpc_utreexo_bridge.Bytes.Segments.{slice, concat}
use rpc_utreexo_bridge.File.{File, read_exact_at, write_all_at}

pub record JournalBoundary : Type 0 where
  pub journal_id : List ℕ
  pub epoch : ℕ
  pub end : ℕ
  pub offset : ℕ
  pub height : ℕ
  pub block_hash : List ℕ
  pub checksum : List ℕ

pub record PublicationMarker : Type 0 where
  pub generation : ℕ
  pub replay_start : ℕ
  pub boundary : JournalBoundary

pub data MarkerError : Type 0 where
  invalid_boundary not_monotonic no_valid_marker : MarkerError

-- b"BRPUB001"
abbrev pub publication_magic : List ℕ
publication_magic = 0x42 ∷ 0x52 ∷ 0x50 ∷ 0x55 ∷ 0x42 ∷ 0x30 ∷ 0x30 ∷ 0x31 ∷ []

abbrev pub publication_slot_size : ℕ
publication_slot_size = 4096

abbrev pub publication_bytes : ℕ
publication_bytes = 172

-- `==` of the derived `PartialEq`.
unfoldable pub boundary_eq : JournalBoundary → JournalBoundary → Bool
boundary_eq a b =
    bytes_eq a.journal_id b.journal_id
    && (a.epoch == b.epoch
        && (a.end == b.end
            && (a.offset == b.offset
                && (a.height == b.height
                    && (bytes_eq a.block_hash b.block_hash && bytes_eq a.checksum b.checksum)))))

-- Bytes 0 to 139, in the order of the copies into the buffer.
abbrev pub marker_prefix : PublicationMarker → List (List ℕ)
marker_prefix m =
    publication_magic
    ∷ m.boundary.journal_id
    ∷ to_le_bytes 8 m.generation
    ∷ to_le_bytes 8 m.replay_start
    ∷ to_le_bytes 8 m.boundary.end
    ∷ to_le_bytes 8 m.boundary.offset
    ∷ to_le_bytes 4 m.boundary.height
    ∷ m.boundary.block_hash
    ∷ m.boundary.checksum
    ∷ []

unfoldable pub marker_of_bytes : List ℕ → List ℕ → PublicationMarker
marker_of_bytes journal_id bytes = record {
  generation = from_le_bytes (slice bytes 40 8);
  replay_start = from_le_bytes (slice bytes 48 8);
  boundary = record {
    journal_id = journal_id;
    epoch = 0;
    end = from_le_bytes (slice bytes 56 8);
    offset = from_le_bytes (slice bytes 64 8);
    height = from_le_bytes (slice bytes 72 4);
    block_hash = slice bytes 76 32;
    checksum = slice bytes 108 32;
  };
}

-- The consistency tests on a marker whose checksum is right.
unfoldable pub marker_is_invalid : ℕ → ℕ → PublicationMarker → Bool
marker_is_invalid page_size slot m =
    not (m.generation % 2 == slot)
    || (ltb m.replay_start page_size
        || (not (m.replay_start % page_size == 0)
            || (ltb m.boundary.end m.replay_start
                || (not (m.boundary.end % page_size == 0)
                    || (ltb page_size m.boundary.end
                        && (ltb m.boundary.offset m.replay_start
                            || (leb m.boundary.end m.boundary.offset
                                || not (m.boundary.offset % page_size == 0))))))))

module _ (sha256 : List ℕ → List ℕ) where
  unfoldable pub encode_publication_marker : PublicationMarker → List ℕ
  encode_publication_marker m = concat (marker_prefix m ++ (sha256 (concat (marker_prefix m)) ∷ []))

  -- The write, without the flush that follows it.
  unfoldable pub write_publication_marker : File → PublicationMarker → File
  write_publication_marker file m =
      write_all_at file (m.generation % 2 * publication_slot_size) (encode_publication_marker m)

  -- The tests that make a slot count as absent.
  unfoldable pub slot_is_sealed : List ℕ → List ℕ → Bool
  slot_is_sealed journal_id bytes =
      bytes_eq (slice bytes 0 8) publication_magic
      && (bytes_eq (slice bytes 8 32) journal_id
          && bytes_eq (sha256 (take 140 bytes)) (slice bytes 140 32))

  -- One round of the loop over the slots: `none` is `continue`.
  unfoldable pub decode_slot :
      List ℕ → ℕ → ℕ → List ℕ → Result MarkerError (Option PublicationMarker)
  decode_slot journal_id page_size slot bytes =
      if slot_is_sealed journal_id bytes
      then if marker_is_invalid page_size slot (marker_of_bytes journal_id bytes)
        then err invalid_boundary
        else ok (some (marker_of_bytes journal_id bytes))
      else ok none

  unfoldable pub read_slot : List ℕ → ℕ → ℕ → File → Result MarkerError (Option PublicationMarker)
  read_slot journal_id page_size slot file =
      elim (read_exact_at file (slot * publication_slot_size) publication_bytes) [
        | none ↦ ok none
        | some bytes ↦ decode_slot journal_id page_size slot bytes
      ]

-- `older` and `newer` of the two valid markers, in this order.
unfoldable pub newest : PublicationMarker → PublicationMarker → Result MarkerError PublicationMarker
newest older newer =
    if ltb newer.boundary.end older.boundary.end
      || (ltb newer.replay_start older.replay_start
          || (newer.boundary.end == older.boundary.end
              && not (boundary_eq newer.boundary older.boundary)))
    then err not_monotonic
    else ok newer

unfoldable pub choose :
    Option PublicationMarker → Option PublicationMarker → Result MarkerError PublicationMarker
choose (some first) (some second) =
    if ltb first.generation second.generation then newest first second else newest second first
choose (some first) none = ok first
choose none (some second) = ok second
choose none none = err no_valid_marker

unfoldable pub read_publication_marker :
    (List ℕ → List ℕ) → File → List ℕ → ℕ → Result MarkerError PublicationMarker
read_publication_marker sha256 file journal_id page_size = do
  first ← read_slot sha256 journal_id page_size 0 file
  second ← read_slot sha256 journal_id page_size 1 file
  choose first second
