-- ===== src/Journal/Record/Disk.antt =====
-- src/forest_journal.rs: `align_up`, `write_record`, `read_record_header`, `read_record`,
-- `validate_boundary`, `scan_published` and `read_superblock`. SHA-256 is the parameter `sha256`; its
-- incremental form is applied to the bytes that `update` was given, in turn.
use rpc_utreexo_bridge.Base.{
  ℕ, zero, suc, ◌+◌, ◌-◌, ◌*◌, ◌/◌, true, false, ◌&&◌, ◌||◌, Option, none, some, List, [], ◌∷◌,
  ◌++◌, ◌==◌, ltb, leb, if◌then◌else◌, length, replicate, Result, ok, err, ◌>>=◌, ◌>>◌, guard,
  ok_or, checked_add,
}
use rpc_utreexo_bridge.Bytes.{to_le_bytes, from_le_bytes, bytes_eq}
use rpc_utreexo_bridge.Bytes.Segments.{slice, concat}
use rpc_utreexo_bridge.File.{File, Outcome, done, failed, read_exact_at, write_all_at, set_len}
use rpc_utreexo_bridge.Consensus.{BitcoinConsensus}
use rpc_utreexo_bridge.Journal.Entry.Types.{JournalEntry}
use rpc_utreexo_bridge.Journal.Entry.Decode.{first_byte}
use rpc_utreexo_bridge.Journal.Marker.Defs.{JournalBoundary, PublicationMarker, boundary_eq}
use rpc_utreexo_bridge.Journal.Record.Types.{
  BlockHeader, forward, RecordError, too_large, length_overflow, span_overflow, file_overflow,
  io_failed, header_truncated, bad_magic, unsupported_version, bad_span, trailer_truncated,
  bad_trailer, payload_truncated, checksum_mismatch, boundary_mismatch, boundary_checksum,
  boundary_identity, final_mismatch, from_byte, to_byte, JournalReplayPayload, JournalRecord,
  last_boundary,
}
use rpc_utreexo_bridge.Journal.Record.Payload.{
  legacy_record_version, replay_record_version, record_version, decode_payload,
}

-- b"BRJNL001"
abbrev pub record_magic : List ℕ
record_magic = 0x42 ∷ 0x52 ∷ 0x4a ∷ 0x4e ∷ 0x4c ∷ 0x30 ∷ 0x30 ∷ 0x31 ∷ []

-- b"ENDJNL01"
abbrev pub record_trailer : List ℕ
record_trailer = 0x45 ∷ 0x4e ∷ 0x44 ∷ 0x4a ∷ 0x4e ∷ 0x4c ∷ 0x30 ∷ 0x31 ∷ []

-- b"BRWAL002"
abbrev pub wal_magic : List ℕ
wal_magic = 0x42 ∷ 0x52 ∷ 0x57 ∷ 0x41 ∷ 0x4c ∷ 0x30 ∷ 0x30 ∷ 0x32 ∷ []

abbrev pub record_header_size : ℕ
record_header_size = 64

abbrev pub status_offset : ℕ
status_offset = 10

abbrev pub max_record_bytes : ℕ
max_record_bytes = 512 * 1024 * 1024

unfoldable pub align_up : ℕ → ℕ → Option ℕ
align_up value alignment =
    if alignment == 0 then none else elim (checked_add value (alignment - 1)) [
      | none ↦ none
      | some padded ↦ some (padded / alignment * alignment)
    ]

-- The 64 bytes in front of the payload, in the order of the copies into the buffer.
abbrev pub header_segments : ℕ → ℕ → ℕ → ℕ → List ℕ → List (List ℕ)
header_segments format status span payload_len checksum =
    record_magic
    ∷ to_le_bytes 2 format
    ∷ (status ∷ [])
    ∷ replicate 5 0
    ∷ to_le_bytes 8 span
    ∷ to_le_bytes 8 payload_len
    ∷ checksum
    ∷ []

-- The span of a record and its end, each addition checked.
unfoldable pub plan_record : ℕ → ℕ → ℕ → Result RecordError (ℕ × ℕ)
plan_record page_size offset payload_len = do
  body ← ok_or (checked_add record_header_size payload_len) length_overflow
  used ← ok_or (checked_add body (length record_trailer)) length_overflow
  span ← ok_or (align_up used page_size) span_overflow
  end ← ok_or (checked_add offset span) file_overflow
  ok (span, end)

-- How the four calls of `write_record` on the file went.
pub record WriteOutcome : Type 0 where
  pub resize : Outcome
  pub header : Outcome
  pub payload : Outcome
  pub trailer : Outcome

-- A call that changes the file to `changed`, and what follows when it was done.
abbrev pub then_on {ℓ} :
    {A : Type ℓ}
    → Outcome
    → File
    → (File → File × Result RecordError A)
    → File × Result RecordError A
then_on done changed next = next changed
then_on (failed left) changed next = (left, err io_failed)

-- The version, the status, the span and the payload length are valid, as `read_record_header` tests.
unfoldable pub check_header : ℕ → ℕ → ℕ → List ℕ → Result RecordError (Unit {0})
check_header page_size offset end header = do
  guard (bytes_eq (slice header 0 8) record_magic) bad_magic
  guard
      (from_le_bytes (slice header 8 2) == legacy_record_version
        || (from_le_bytes (slice header 8 2) == replay_record_version
            || from_le_bytes (slice header 8 2) == record_version))
      unsupported_version
  status ← from_byte (first_byte (slice header 10 1))
  guard (leb (from_le_bytes (slice header 24 8)) max_record_bytes) bad_span
  span ←
      ok_or
        (align_up (record_header_size + from_le_bytes (slice header 24 8) + length record_trailer)
          page_size)
        bad_span
  guard (span == from_le_bytes (slice header 16 8)) bad_span
  record_end ← ok_or (checked_add offset span) bad_span
  guard (leb record_end end) bad_span

unfoldable pub read_record_header : File → ℕ → ℕ → ℕ → Result RecordError (List ℕ)
read_record_header file page_size offset end = do
  header ← ok_or (read_exact_at file offset record_header_size) header_truncated
  check_header page_size offset end header
  trailer ←
      ok_or (read_exact_at file (offset + record_header_size + from_le_bytes (slice header 24 8)) 8)
        trailer_truncated
  guard (bytes_eq trailer record_trailer) bad_trailer
  ok header

-- The loop of `validate_boundary` over chunks of at most 64 KiB: the bytes that the digest is given.
unfoldable pub read_chunks : ℕ → File → ℕ → ℕ → Result RecordError (List ℕ)
read_chunks zero file offset rest = if rest == 0 then ok [] else err payload_truncated
read_chunks (suc fuel) file offset rest = elim (rest == 0) [
  | true ↦ ok []
  | false ↦ do
    let count = if leb rest 65536 then rest else 65536
    chunk ← ok_or (read_exact_at file offset count) payload_truncated
    chunks ← read_chunks fuel file (offset + count) (rest - count)
    ok (chunk ++ chunks)
]

module _ {H : Type 0} (sha256 : List ℕ → List ℕ) (c : BitcoinConsensus)
    (block : BlockHeader H) where
  unfoldable pub write_record :
      WriteOutcome
      → File
      → ℕ
      → ℕ
      → JournalEntry
      → Option (JournalReplayPayload H)
      → List ℕ
      → ℕ
      → File × Result RecordError (JournalRecord H)
  write_record io file page_size offset entry replay payload format =
      if ltb max_record_bytes (length payload)
      then (file, err too_large)
      else elim (plan_record page_size offset (length payload)) [
        | err e ↦ (file, err e)
        | ok (span, end) ↦
            let header =
              concat
                (header_segments format (to_byte forward) span (length payload) (sha256 payload)) in
            then_on io.resize (set_len file end) λ resized.
              then_on io.header (write_all_at resized offset header) λ headed.
                then_on io.payload (write_all_at headed (offset + record_header_size) payload)
                  λ filled.
                    then_on io.trailer
                      (write_all_at filled (offset + record_header_size + length payload)
                        record_trailer)
                      λ file'. (
                        file',
                        ok (record {
                          entry = entry;
                          status = forward;
                          replay = replay;
                          offset = offset;
                          span = span;
                          checksum = sha256 payload;
                        }),
                      )
      ]

  unfoldable pub read_record : File → ℕ → ℕ → ℕ → Result RecordError (JournalRecord H)
  read_record file page_size offset end = do
    header ← read_record_header file page_size offset end
    payload ←
        ok_or (read_exact_at file (offset + record_header_size) (from_le_bytes (slice header 24 8)))
          payload_truncated
    guard (bytes_eq (sha256 payload) (slice header 32 32)) checksum_mismatch
    contents ← decode_payload c block (from_le_bytes (slice header 8 2)) payload
    status ← from_byte (first_byte (slice header 10 1))
    ok (record {
      entry = contents.0;
      status = status;
      replay = contents.1;
      offset = offset;
      span = from_le_bytes (slice header 16 8);
      checksum = sha256 payload;
    })

  -- `while offset < end`: the loop of `scan_published`. On fuel; a span of zero, which
  -- `read_record_header` refuses, is the only way to stay at an offset.
  unfoldable pub scan_records : ℕ → File → ℕ → ℕ → ℕ → Result RecordError (List (JournalRecord H))
  scan_records zero file page_size offset end = if leb end offset then ok [] else err bad_span
  scan_records (suc fuel) file page_size offset end = elim (ltb offset end) [
    | false ↦ ok []
    | true ↦ do
      r ← read_record file page_size offset end
      rest ← scan_records fuel file page_size (offset + r.span) end
      ok (r ∷ rest)
  ]

  unfoldable pub scan_published :
      File → ℕ → PublicationMarker → Result RecordError (List (JournalRecord H))
  scan_published file page_size marker = do
    records ←
        scan_records marker.boundary.end file page_size marker.replay_start marker.boundary.end
    guard
        (boundary_eq (last_boundary marker.boundary.journal_id 0 page_size records) marker.boundary)
        final_mismatch
    ok records

unfoldable pub validate_boundary :
    (List ℕ → List ℕ) → File → ℕ → JournalBoundary → Result RecordError (Unit {0})
validate_boundary sha256 file page_size boundary = do
  header ← read_record_header file page_size boundary.offset boundary.end
  guard
      (boundary.offset + from_le_bytes (slice header 16 8) == boundary.end
        && bytes_eq (slice header 32 32) boundary.checksum)
      boundary_mismatch
  payload ←
      read_chunks (from_le_bytes (slice header 24 8)) file (boundary.offset + record_header_size)
        (from_le_bytes (slice header 24 8))
  guard (bytes_eq (sha256 payload) boundary.checksum) boundary_checksum
  identity ←
      ok_or
        (read_exact_at file
          (boundary.offset
            + record_header_size
            + (if from_le_bytes (slice header 8 2) == legacy_record_version then 0 else 4))
          44)
        payload_truncated
  guard
      (bytes_eq (slice identity 0 32) boundary.block_hash
        && from_le_bytes (slice identity 40 4) == boundary.height)
      boundary_identity
