-- ===== src/Journal/Record/Held.antt =====
-- src/forest_journal.rs: what it means that a file holds a record, and that such a record is read
-- back, validated, and kept by operations that touch other parts of the file.
use rpc_utreexo_bridge.Base.{
  ℕ, ◌+◌, ◌^◌, ◌≤◌, ◌<◌, ◌≡◌, refl, ap, ◌∙◌, true, ◌⊎◌, inl, inr, some, Option, List, [], ◌∷◌,
  length, ok, arith, le→leb, lt→ltb, ==_refl, ◌==◌, ◌||◌, if◌then◌else◌, checked_add,
}
use rpc_utreexo_bridge.Bytes.{from_le_bytes, bytes_eq_refl}
use rpc_utreexo_bridge.Bytes.Segments.{slice}
use rpc_utreexo_bridge.File.{
  File, read_bytes, read_exact_at_inside, SameOn, read-SameOn, slice-read_bytes,
}
use rpc_utreexo_bridge.Consensus.{BitcoinConsensus}
use rpc_utreexo_bridge.Journal.Entry.Types.{JournalEntry}
use rpc_utreexo_bridge.Journal.Record.Types.{
  BlockHeader, JournalReplayPayload, JournalRecord, to_byte, from_byte-to_byte,
}
use rpc_utreexo_bridge.Journal.Record.Payload.{decode_payload}
use rpc_utreexo_bridge.Journal.Record.Disk.{
  record_magic, record_trailer, record_header_size, max_record_bytes, align_up, check_header,
  read_record_header, read_record,
}

-- Where the entry starts in a payload: a legacy payload has no length in front of it.
abbrev pub lead : ℕ → ℕ
lead format = if format == 1 then 0 else 4

-- The bytes of `r` lie in the file, with the given version and payload.
pub record OnDisk {H : Type 0} (file : File) (r : JournalRecord H) (format : ℕ) (payload : List ℕ)
    : Type 0 where
  pub inside : r.offset + r.span ≤ file.len
  pub magic_on : read_bytes file.byte_at r.offset 8 ≡ record_magic
  pub format_on : from_le_bytes (read_bytes file.byte_at (r.offset + 8) 2) ≡ format
  pub status_on : read_bytes file.byte_at (r.offset + 10) 1 ≡ to_byte r.status ∷ []
  pub span_on : from_le_bytes (read_bytes file.byte_at (r.offset + 16) 8) ≡ r.span
  pub len_on : from_le_bytes (read_bytes file.byte_at (r.offset + 24) 8) ≡ length payload
  pub checksum_on : read_bytes file.byte_at (r.offset + 32) 32 ≡ r.checksum
  pub payload_on : read_bytes file.byte_at (r.offset + 64) (length payload) ≡ payload
  pub trailer_on : read_bytes file.byte_at (r.offset + 64 + length payload) 8 ≡ record_trailer

module _ {H : Type 0} (sha256 : List ℕ → List ℕ) (c : BitcoinConsensus) (block : BlockHeader H)
    (page_size : ℕ) where
  -- The payload has this version, and holds this entry and replay payload.
  pub record IsPayload (format : ℕ) (payload : List ℕ) (entry : JournalEntry)
      (replay : Option (JournalReplayPayload H)) : Type 0 where
    pub known : (format ≡ 1) ⊎ ((format ≡ 2) ⊎ (format ≡ 3))
    pub decoded : decode_payload c block format payload ≡ ok (entry, replay)
    pub long : lead format + 44 ≤ length payload
    pub hash_at : slice payload (lead format) 32 ≡ entry.block_hash
    pub height_at : from_le_bytes (slice payload (lead format + 40) 4) ≡ entry.height
    pub hash_32 : length entry.block_hash ≡ 32
    pub height_u32 : entry.height < 256 ^ 4

  -- `r` is a record that `read_record` may return for this version and payload.
  pub record Describes (r : JournalRecord H) (format : ℕ) (payload : List ℕ) : Type 0 where
    pub spelled : IsPayload format payload r.entry r.replay
    pub short : length payload ≤ max_record_bytes
    pub aligned : align_up (record_header_size + length payload + 8) page_size ≡ some r.span
    pub room : record_header_size + length payload + 8 ≤ r.span
    pub end_u64 : r.offset + r.span < 2 ^ 64
    pub sealed : r.checksum ≡ sha256 payload

  pub record Held (file : File) (r : JournalRecord H) : Type 0 where
    pub format : ℕ
    pub payload : List ℕ
    pub describes : Describes r format payload
    pub on_disk : OnDisk file r format payload

  -- A file that agrees with another on the range of a record holds it as well.
  pub Held-frame :
      (file file' : File) (r : JournalRecord H)
      → Held file r
      → SameOn file.byte_at file'.byte_at r.offset (r.offset + r.span)
      → r.offset + r.span ≤ file'.len
      → Held file' r
  Held-frame file file' r h same fits =
      let d = h.on_disk in
      let again : (off n : ℕ)
          → r.offset ≤ off
          → off + n ≤ r.offset + r.span
          → read_bytes file'.byte_at off n ≡ read_bytes file.byte_at off n =
        λ off n from to. read-SameOn _ _ r.offset (r.offset + r.span) off n same from to in
      let room = h.describes.room in
      record {
        format = h.format;
        payload = h.payload;
        describes = h.describes;
        on_disk = record {
          inside = fits;
          magic_on = again _ _ (omega arith) (omega (arith, room)) ∙ d.magic_on;
          format_on =
              ap from_le_bytes (again _ _ (omega arith) (omega (arith, room))) ∙ d.format_on;
          status_on = again _ _ (omega arith) (omega (arith, room)) ∙ d.status_on;
          span_on = ap from_le_bytes (again _ _ (omega arith) (omega (arith, room))) ∙ d.span_on;
          len_on = ap from_le_bytes (again _ _ (omega arith) (omega (arith, room))) ∙ d.len_on;
          checksum_on = again _ _ (omega arith) (omega (arith, room)) ∙ d.checksum_on;
          payload_on = again _ _ (omega arith) (omega (arith, room)) ∙ d.payload_on;
          trailer_on = again _ _ (omega arith) (omega (arith, room)) ∙ d.trailer_on;
        };
      }

  module _ (file : File) (r : JournalRecord H) (h : Held file r) where
    abbrev header : List ℕ
    header = read_bytes file.byte_at r.offset record_header_size

    -- The fields that the header has at their offsets.
    pub header-fields :
        (slice header 0 8 ≡ record_magic)
        × (from_le_bytes (slice header 8 2) ≡ h.format)
        × (slice header 10 1 ≡ to_byte r.status ∷ [])
        × (from_le_bytes (slice header 16 8) ≡ r.span)
        × (from_le_bytes (slice header 24 8) ≡ length h.payload)
        × (slice header 32 32 ≡ r.checksum)
    header-fields =
        let at : (a m : ℕ)
            → a + m ≤ 64
            → slice header a m ≡ read_bytes file.byte_at (r.offset + a) m =
          λ a m fits. slice-read_bytes file.byte_at r.offset 64 a m fits in
        let start : r.offset + 0 ≡ r.offset = omega arith in
        (
          at 0 8 (omega arith)
              ∙ ap (λ (o : ℕ). read_bytes file.byte_at o 8) start
              ∙ h.on_disk.magic_on,
          ap from_le_bytes (at 8 2 (omega arith)) ∙ h.on_disk.format_on,
          at 10 1 (omega arith) ∙ h.on_disk.status_on,
          ap from_le_bytes (at 16 8 (omega arith)) ∙ h.on_disk.span_on,
          ap from_le_bytes (at 24 8 (omega arith)) ∙ h.on_disk.len_on,
          at 32 32 (omega arith) ∙ h.on_disk.checksum_on,
        )

    format_known : (h.format == 1 || (h.format == 2 || h.format == 3)) ≡ true
    format_known = elim h.describes.spelled.known [
      | inl e ↦ rw e refl
      | inr (inl e) ↦ rw e refl
      | inr (inr e) ↦ rw e refl
    ]

    module _ (end : ℕ) (before : r.offset + r.span ≤ end) where
      header-accepted : check_header page_size r.offset end header ≡ ok tt
      unfolding check_header checked_add
      header-accepted =
          let (magic, format, status, span, len, sum) = header-fields in
          let d = h.describes in
          rw
            (
              magic,
              format,
              status,
              span,
              len,
              bytes_eq_refl record_magic,
              format_known,
              from_byte-to_byte r.status,
              le→leb (length h.payload) max_record_bytes d.short,
              d.aligned,
              ==_refl r.span,
              lt→ltb (r.offset + r.span) (2 ^ 64) d.end_u64,
              le→leb (r.offset + r.span) end before,
            )
            refl

      -- The header of a held record is read, whatever end behind it is allowed.
      pub read_record_header-Held : read_record_header file page_size r.offset end ≡ ok header
      unfolding read_record_header
      read_record_header-Held =
          let d = h.describes in
          let o = h.on_disk in
          let len = header-fields.4 in
          rw
            (
              read_exact_at_inside file r.offset record_header_size
                  (omega (arith, d.room, o.inside)),
              header-accepted,
              len,
              read_exact_at_inside file (r.offset + record_header_size + length h.payload) 8
                  (omega (arith, d.room, o.inside)),
              o.trailer_on,
              bytes_eq_refl record_trailer,
            )
            refl

      -- The record is read back.
      pub read_record-Held : read_record sha256 c block file page_size r.offset end ≡ ok r
      unfolding read_record
      read_record-Held =
          let d = h.describes in
          let o = h.on_disk in
          let (magic, format, status, span, len, sum) = header-fields in
          rw
            (
              read_record_header-Held,
              len,
              read_exact_at_inside file (r.offset + record_header_size) (length h.payload)
                  (omega (arith, d.room, o.inside)),
              o.payload_on,
              sum,
              ← d.sealed,
              bytes_eq_refl r.checksum,
              format,
              d.spelled.decoded,
              status,
              from_byte-to_byte r.status,
              span,
            )
            refl
