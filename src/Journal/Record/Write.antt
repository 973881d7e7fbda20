-- ===== src/Journal/Record/Write.antt =====
-- src/forest_journal.rs: the file that `write_record` leaves.
use rpc_utreexo_bridge.Base.{
  Result, ℕ, ◌+◌, ◌^◌, ◌≤◌, ◌<◌, ◌≡◌, refl, ap, ◌∙◌, sym, List, [], ◌∷◌, ◌++◌, length, replicate,
  arith, ltb, Bool-cases, inl, inr, ok, Option, Result-cases,
}
use rpc_utreexo_bridge.Bytes.{
  to_le_bytes, from_le_bytes, length-to_le_bytes, from_le_bytes-to_le_bytes,
}
use rpc_utreexo_bridge.Bytes.Segments.{slice, concat, slice-concat, length-concat}
use rpc_utreexo_bridge.File.{
  File, Outcome, done, failed, read_bytes, write_all_at, set_len, SameOn, SameOn-trans,
  set_len-SameOn, write-SameOn, len-write_inside, bytes-write_self, bytes-write-Apart,
}
use rpc_utreexo_bridge.Consensus.{BitcoinConsensus}
use rpc_utreexo_bridge.Journal.Entry.Types.{JournalEntry}
use rpc_utreexo_bridge.Journal.Record.Types.{
  BlockHeader, JournalReplayPayload, JournalRecord, RecordError, forward, to_byte,
}
use rpc_utreexo_bridge.Journal.Record.Disk.{
  record_magic, record_trailer, record_header_size, max_record_bytes, header_segments, plan_record,
  WriteOutcome, then_on, write_record,
}

-- The file after the four calls.
abbrev pub filled : File → ℕ → ℕ → List ℕ → List ℕ → File
filled file offset end header payload =
    write_all_at
      (write_all_at (write_all_at (set_len file end) offset header) (offset + record_header_size)
        payload)
      (offset + record_header_size + length payload) record_trailer

module _ (file : File) (offset end : ℕ) (header payload : List ℕ) (start : offset ≤ file.len)
    (size : length header ≡ 64) (room : offset + 64 + length payload + 8 ≤ end) where
  abbrev resized : File
  resized = set_len file end

  abbrev headed : File
  headed = write_all_at resized offset header

  abbrev with_payload : File
  with_payload = write_all_at headed (offset + record_header_size) payload

  abbrev complete : File
  complete = filled file offset end header payload

  len-set_len : resized.len ≡ end
  unfolding set_len
  len-set_len = refl

  lengths : (headed.len ≡ end) × (with_payload.len ≡ end) × (complete.len ≡ end)
  lengths =
      let a =
        len-write_inside resized offset header (omega (arith, len-set_len, size)) ∙ len-set_len in
      let b =
        len-write_inside headed (offset + record_header_size) payload (omega (arith, a)) ∙ a in
      (
        a,
        b,
        len-write_inside with_payload (offset + record_header_size + length payload) record_trailer
              (omega (arith, b))
            ∙ b,
      )

  pub filled-SameOn : SameOn file.byte_at complete.byte_at 0 offset
  filled-SameOn =
      let (a, b, c) = lengths in
      SameOn-trans _ _ _ 0 offset (set_len-SameOn file end 0 offset start) (
        SameOn-trans _ _ _ 0 offset
          (write-SameOn resized offset header 0 offset (omega (arith, len-set_len))
            (λ i p q r. absurd (omega arith)))
          (SameOn-trans _ _ _ 0 offset
            (write-SameOn headed _ payload 0 offset (omega (arith, a))
              (λ i p q r. absurd (omega arith)))
            (write-SameOn with_payload _ record_trailer 0 offset (omega (arith, b))
              (λ i p q r. absurd (omega arith)))))

  pub filled-reads :
      (complete.len ≡ end)
      × (read_bytes complete.byte_at offset 64 ≡ header)
      × (read_bytes complete.byte_at (offset + 64) (length payload) ≡ payload)
      × (read_bytes complete.byte_at (offset + 64 + length payload) 8 ≡ record_trailer)
  filled-reads =
      let (a, b, c) = lengths in
      (
        c,
        bytes-write-Apart with_payload offset 64 _ record_trailer (inl (omega arith))
              (omega (arith, b))
            ∙ bytes-write-Apart headed offset 64 _ payload (inl (omega arith)) (omega (arith, a))
            ∙ ap (read_bytes headed.byte_at offset) (sym size)
            ∙ bytes-write_self resized offset header,
        bytes-write-Apart with_payload (offset + 64) (length payload) _ record_trailer
              (inl (omega arith)) (omega (arith, b))
            ∙ bytes-write_self headed (offset + 64) payload,
        bytes-write_self with_payload (offset + 64 + length payload) record_trailer,
      )

module _ (format status span len : ℕ) (checksum : List ℕ) (sum_32 : length checksum ≡ 32) where
  abbrev header : List ℕ
  header = concat (header_segments format status span len checksum)

  pub length-header : length header ≡ 64
  length-header =
      length-concat (header_segments format status span len checksum)
      ∙ omega (
        arith,
        length-to_le_bytes 2 format,
        length-to_le_bytes 8 span,
        length-to_le_bytes 8 len,
        sum_32,
      )

  -- The fields at their offsets.
  pub header-slices :
      format < 256 ^ 2
      → span < 256 ^ 8
      → len < 256 ^ 8
      → (slice header 0 8 ≡ record_magic)
        × (from_le_bytes (slice header 8 2) ≡ format)
        × (slice header 10 1 ≡ status ∷ [])
        × (from_le_bytes (slice header 16 8) ≡ span)
        × (from_le_bytes (slice header 24 8) ≡ len)
        × (slice header 32 32 ≡ checksum)
  header-slices hf hs hl =
      let to_format : List (List ℕ) = record_magic ∷ [] in
      let to_status : List (List ℕ) = to_format ++ (to_le_bytes 2 format ∷ []) in
      let to_span : List (List ℕ) = to_status ++ ((status ∷ []) ∷ replicate 5 0 ∷ []) in
      let to_len : List (List ℕ) = to_span ++ (to_le_bytes 8 span ∷ []) in
      let to_sum : List (List ℕ) = to_len ++ (to_le_bytes 8 len ∷ []) in
      let from_len : List (List ℕ) = to_le_bytes 8 len ∷ checksum ∷ [] in
      let from_pad : List (List ℕ) = replicate 5 0 ∷ to_le_bytes 8 span ∷ from_len in
      let from_status : List (List ℕ) = (status ∷ []) ∷ from_pad in
      let two = length-to_le_bytes 2 format in
      let eight = length-to_le_bytes 8 span in
      let last = length-to_le_bytes 8 len in
      (
        slice-concat [] record_magic (to_le_bytes 2 format ∷ from_status) 0 8 refl refl,
        ap from_le_bytes (slice-concat to_format (to_le_bytes 2 format) from_status 8 2 refl two)
            ∙ from_le_bytes-to_le_bytes 2 format hf,
        slice-concat to_status (status ∷ []) from_pad 10 1 (omega (arith, two)) refl,
        ap from_le_bytes
              (slice-concat to_span (to_le_bytes 8 span) from_len 16 8 (omega (arith, two)) eight)
            ∙ from_le_bytes-to_le_bytes 8 span hs,
        ap from_le_bytes (
              slice-concat to_len (to_le_bytes 8 len) (checksum ∷ []) 24 8
                (omega (arith, two, eight)) last)
            ∙ from_le_bytes-to_le_bytes 8 len hl,
        slice-concat to_sum checksum [] 32 32 (omega (arith, two, eight, last)) sum_32,
      )

-- A call that was followed by a success was done.
then_on-eq-ok :
    {A : Type 0} (o : Outcome) (changed : File) (next : File → File × Result RecordError A)
    {file' : File} {a : A}
    → then_on o changed next ≡ (file', ok a)
    → next changed ≡ (file', ok a)
then_on-eq-ok done changed next h = h
then_on-eq-ok (failed left) changed next h = cc

-- The header of a new record, and the record that is returned.
abbrev pub new_header : (List ℕ → List ℕ) → ℕ → List ℕ → ℕ → List ℕ
new_header sha256 format payload span =
    concat (header_segments format (to_byte forward) span (length payload) (sha256 payload))

abbrev pub new_record :
    {H : Type 0}
    → (List ℕ → List ℕ)
    → ℕ
    → JournalEntry
    → Option (JournalReplayPayload H)
    → List ℕ
    → ℕ
    → JournalRecord H
new_record sha256 offset entry replay payload span = record {
  entry = entry;
  status = forward;
  replay = replay;
  offset = offset;
  span = span;
  checksum = sha256 payload;
}

module _ {H : Type 0} (sha256 : List ℕ → List ℕ) (c : BitcoinConsensus) (block : BlockHeader H)
    (io : WriteOutcome) (file : File) (page_size offset : ℕ) (entry : JournalEntry)
    (replay : Option (JournalReplayPayload H)) (payload : List ℕ) (format : ℕ) where
  abbrev outcome : File × Result RecordError (JournalRecord H)
  outcome = write_record sha256 c block io file page_size offset entry replay payload format

  -- A write that succeeded passed the size test and made all four calls.
  pub write_record-eq-ok :
      {file' : File} {r : JournalRecord H}
      → outcome ≡ (file', ok r)
      → (span : ℕ) × (end : ℕ) × (plan_record page_size offset (length payload) ≡ ok (span, end))
        × (length payload ≤ max_record_bytes)
        × (file' ≡ filled file offset end (new_header sha256 format payload span) payload)
        × (r ≡ new_record sha256 offset entry replay payload span)
  unfolding write_record
  write_record-eq-ok h = elim (Bool-cases (ltb max_record_bytes (length payload))) [
    | inl large ↦ cc (rw large at h)
    | inr small ↦ elim (Result-cases (plan_record page_size offset (length payload))) [
      | inl ((span, end), planned) ↦
          let h1 = then_on-eq-ok io.resize _ _ (rw (small, planned) at h) in
          let h2 = then_on-eq-ok io.header _ _ h1 in
          let h3 = then_on-eq-ok io.payload _ _ h2 in
          let h4 = then_on-eq-ok io.trailer _ _ h3 in
          (span, end, planned, ground arith, cc h4, cc h4)
      | inr (e, refused) ↦ cc (rw (small, refused) at h)
    ]
  ]
