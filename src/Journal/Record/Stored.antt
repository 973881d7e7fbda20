-- ===== src/Journal/Record/Stored.antt =====
-- src/forest_journal.rs: what `write_record` achieved, and what it spares when it fails.
use rpc_utreexo_bridge.Base.{
  ℕ, ◌+◌, ◌%◌, ◌^◌, ◌≤◌, ◌<◌, ◌≡◌, refl, ap, ◌∙◌, sym, subst, List, length, arith, ltb, Bool-cases,
  inl, inr, ok, Option, Result, Result-cases,
}
use rpc_utreexo_bridge.Bytes.{from_le_bytes}
use rpc_utreexo_bridge.Bytes.Segments.{slice}
use rpc_utreexo_bridge.File.{
  File, Outcome, done, failed, read_bytes, SameOn, slice-read_bytes, KeepsBelow,
}
use rpc_utreexo_bridge.Consensus.{BitcoinConsensus}
use rpc_utreexo_bridge.Journal.Entry.Types.{JournalEntry}
use rpc_utreexo_bridge.Journal.Record.Types.{
  BlockHeader, JournalReplayPayload, JournalRecord, RecordError, forward, to_byte,
}
use rpc_utreexo_bridge.Journal.Record.Disk.{
  record_header_size, max_record_bytes, plan_record, WriteOutcome, then_on, write_record,
}
use rpc_utreexo_bridge.Journal.Record.Plan.{plan_record-eq-ok, align_up-eq-some}
use rpc_utreexo_bridge.Journal.Record.Held.{OnDisk, IsPayload, Held}
use rpc_utreexo_bridge.Journal.Record.Write.{
  filled, filled-SameOn, filled-reads, length-header, header-slices, write_record-eq-ok, new_header,
  new_record,
}

-- What lies below `offset` is as before.
abbrev pub IsSpared : File → ℕ → File → Type 0
IsSpared file offset left = SameOn file.byte_at left.byte_at 0 offset × (offset ≤ left.len)

-- The four calls of a write may fail, each leaving what lies below the offset.
pub record Spares (file : File) (offset : ℕ) (io : WriteOutcome) : Type 0 where
  pub resize_spares : KeepsBelow io.resize file offset
  pub header_spares : KeepsBelow io.header file offset
  pub payload_spares : KeepsBelow io.payload file offset
  pub trailer_spares : KeepsBelow io.trailer file offset

module _ {H : Type 0} (sha256 : List ℕ → List ℕ)
    (digest_32 : (bs : List ℕ) → length (sha256 bs) ≡ 32) (c : BitcoinConsensus)
    (block : BlockHeader H) (page_size : ℕ) where
  -- What a write of `entry` at `offset` of `file` that succeeded gives.
  pub record Appends (file : File) (offset : ℕ) (file' : File) (r : JournalRecord H) : Type 0 where
    pub held : Held sha256 c block page_size file' r
    pub below : SameOn file.byte_at file'.byte_at 0 offset
    pub len_end : file'.len ≡ offset + r.span
    pub at_offset : r.offset ≡ offset
    pub span_aligned : r.span % page_size ≡ 0
    pub span_pos : 0 < r.span

  module _ (file : File) (offset : ℕ) (entry : JournalEntry)
      (replay : Option (JournalReplayPayload H)) (payload : List ℕ) (format : ℕ) where
    written-OnDisk :
        (span end : ℕ)
        → offset ≤ file.len
        → IsPayload sha256 c block page_size format payload entry replay
        → length payload ≤ max_record_bytes
        → 64 + length payload + 8 ≤ span
        → end ≡ offset + span
        → offset + span < 2 ^ 64
        → OnDisk
            (filled file offset end (new_header sha256 format payload span) payload)
            (new_record sha256 offset entry replay payload span)
            format
            payload
    written-OnDisk span end start p short room stop fits =
        let sum = digest_32 payload in
        let size =
          length-header format (to_byte forward) span (length payload) (sha256 payload) sum in
        let (magic, version, status, spans, len, sums) =
          header-slices format (to_byte forward) span (length payload) (sha256 payload) sum
            (ground (arith, p.known)) (omega (arith, fits)) (omega (arith, short)) in
        let (total, front, middle, back) =
          filled-reads file offset end (new_header sha256 format payload span) payload start size
            (omega (arith, room, stop)) in
        let f = (filled file offset end (new_header sha256 format payload span) payload).byte_at in
        let at : (a m : ℕ)
            → a + m ≤ 64
            → read_bytes f (offset + a) m ≡ slice (new_header sha256 format payload span) a m =
          λ a m h.
            sym (slice-read_bytes f offset 64 a m h) ∙ ap (λ (x : List ℕ). slice x a m) front in
        let zero_off : offset ≡ offset + 0 = omega arith in
        record {
          inside = omega (arith, total, stop);
          magic_on = ap (λ (o : ℕ). read_bytes f o 8) zero_off ∙ at 0 8 (omega arith) ∙ magic;
          format_on = ap from_le_bytes (at 8 2 (omega arith)) ∙ version;
          status_on = at 10 1 (omega arith) ∙ status;
          span_on = ap from_le_bytes (at 16 8 (omega arith)) ∙ spans;
          len_on = ap from_le_bytes (at 24 8 (omega arith)) ∙ len;
          checksum_on = at 32 32 (omega arith) ∙ sums;
          payload_on = middle;
          trailer_on = back;
        }

    -- A payload of a known version that decodes to the entry, at an offset inside the file: a write
    -- that succeeded gives a record that the file holds, and changes nothing below the offset.
    pub write_record-Appends :
        (io : WriteOutcome) {file' : File} {r : JournalRecord H}
        → offset ≤ file.len
        → IsPayload sha256 c block page_size format payload entry replay
        → write_record sha256 c block io file page_size offset entry replay payload format
          ≡ (file', ok r)
        → Appends file offset file' r
          × (r.entry ≡ entry)
          × (r.replay ≡ replay)
          × (r.status ≡ forward)
    write_record-Appends io {file'} {r} start p h =
        let (span, end, planned, short, left, made) =
          write_record-eq-ok sha256 c block io file page_size offset entry replay payload format
            h in
        let (aligned, stop, fits) =
          plan_record-eq-ok page_size offset (length payload) span end planned in
        let (positive, room, close, multiple) =
          align_up-eq-some (record_header_size + length payload + 8) page_size aligned in
        let size =
          length-header format (to_byte forward) span (length payload) (sha256 payload)
            (digest_32 payload) in
        let header = new_header sha256 format payload span in
        let new = new_record sha256 offset entry replay payload span in
        let result : Appends file offset (filled file offset end header payload) new = record {
          held = record {
            format = format;
            payload = payload;
            describes = record {
              spelled = p;
              short = short;
              aligned = aligned;
              room = room;
              end_u64 = fits;
              sealed = refl;
            };
            on_disk = written-OnDisk span end start p short room stop fits;
          };
          below =
              filled-SameOn file offset end header payload start size (omega (arith, room, stop));
          len_end =
              (filled-reads file offset end header payload start size (omega (arith, room, stop))).0
              ∙ stop;
          at_offset = refl;
          span_aligned = multiple;
          span_pos = omega (arith, room);
        } in
        (
          subst (λ (x : File × JournalRecord H). Appends file offset x.0 x.1) (cc (left, made))
              result,
          cc made,
          cc made,
          cc made,
        )

    then_on-IsSpared :
        (o : Outcome) (changed : File) (next : File → File × Result RecordError (JournalRecord H))
        → KeepsBelow o file offset
        → IsSpared file offset (next changed).0
        → IsSpared file offset (then_on o changed next).0
    then_on-IsSpared done changed next k s = s
    then_on-IsSpared (failed left) changed next k s = k

    -- Whether it succeeds or fails, a write at the end spares what is below.
    pub write_record-IsSpared :
        (io : WriteOutcome)
        → offset ≤ file.len
        → Spares file offset io
        → IsSpared file offset
            (write_record sha256 c block io file page_size offset entry replay payload format).0
    unfolding write_record
    write_record-IsSpared io start s = elim (Bool-cases (ltb max_record_bytes (length payload))) [
      | inl large ↦ rw large (λ i p q. refl, start)
      | inr small ↦ elim (Result-cases (plan_record page_size offset (length payload))) [
        | inl ((span, end), planned) ↦
            let (aligned, stop, fits) =
              plan_record-eq-ok page_size offset (length payload) span end planned in
            let room =
              (align_up-eq-some (record_header_size + length payload + 8) page_size aligned).1 in
            let header = new_header sha256 format payload span in
            let size =
              length-header format (to_byte forward) span (length payload) (sha256 payload)
                (digest_32 payload) in
            let fit : offset + 64 + length payload + 8 ≤ end = omega (arith, room, stop) in
            rw (small, planned)
              (then_on-IsSpared io.resize _ _ s.resize_spares (
                then_on-IsSpared io.header _ _ s.header_spares (
                  then_on-IsSpared io.payload _ _ s.payload_spares (
                    then_on-IsSpared io.trailer _ _ s.trailer_spares (
                      filled-SameOn file offset end header payload start size fit,
                      omega (
                        arith,
                        (filled-reads file offset end header payload start size fit).0,
                        fit,
                      ),
                    )))))
        | inr (e, refused) ↦ rw (small, refused) (λ i p q. refl, start)
      ]
    ]
