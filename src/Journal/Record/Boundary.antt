-- ===== src/Journal/Record/Boundary.antt =====
-- src/forest_journal.rs: `validate_boundary`: the digest over chunks, and the boundary of a record
-- that the file holds.
use rpc_utreexo_bridge.Base.{
  ℕ, zero, suc, ◌+◌, ◌-◌, ◌≤◌, ◌<◌, ◌≡◌, refl, ap, ◌∙◌, sym, List, length, ok, arith, leb, ◌==◌,
  ==_refl, Bool-cases, inl, inr, if◌then◌else◌,
}
use rpc_utreexo_bridge.Bytes.{from_le_bytes, bytes_eq_refl}
use rpc_utreexo_bridge.Bytes.Segments.{slice}
use rpc_utreexo_bridge.File.{
  File, read_bytes, read_bytes_split, read_exact_at_inside, slice-read_bytes,
}
use rpc_utreexo_bridge.Consensus.{BitcoinConsensus}
use rpc_utreexo_bridge.Journal.Record.Types.{BlockHeader, JournalRecord, record_boundary}
use rpc_utreexo_bridge.Journal.Record.Disk.{record_header_size, read_chunks, validate_boundary}
use rpc_utreexo_bridge.Journal.Record.Held.{Held, lead, header-fields, read_record_header-Held}

abbrev chunk_of : ℕ → ℕ
chunk_of rest = if leb rest 65536 then rest else 65536

chunk_of_bounds : (rest : ℕ) → 0 < rest → (0 < chunk_of rest) × (chunk_of rest ≤ rest)
chunk_of_bounds rest h = ground arith

-- A range inside the file, and fuel for one round for each of its bytes: the chunks of the loop make up exactly the
-- bytes that one read of the whole range returns.
pub read_chunks_whole :
    (fuel : ℕ) (file : File) (offset rest : ℕ)
    → rest ≤ fuel
    → offset + rest ≤ file.len
    → read_chunks fuel file offset rest ≡ ok (read_bytes file.byte_at offset rest)
unfolding read_chunks read_bytes
read_chunks_whole zero file offset rest enough inside =
    let none_left : rest ≡ 0 = omega arith in rw none_left refl
read_chunks_whole (suc fuel) file offset rest enough inside = elim (Bool-cases (rest == 0)) [
  | inl last ↦ let none_left : rest ≡ 0 = ground arith in rw none_left refl
  | inr more ↦
      let (some_read, no_more) = chunk_of_bounds rest (ground arith) in
      let n = chunk_of rest in
      let later = read_chunks_whole fuel file (offset + n) (rest - n) (omega arith) (omega arith) in
      let all : n + (rest - n) ≡ rest = omega arith in
      rw (more, read_chunks, read_exact_at_inside file offset n (omega arith), later)
        (ap ok (
          sym (read_bytes_split file.byte_at offset n (rest - n))
          ∙ ap (read_bytes file.byte_at offset) all))
]

module _ {H : Type 0} (sha256 : List ℕ → List ℕ) (c : BitcoinConsensus) (block : BlockHeader H)
    (page_size : ℕ) where
  -- The first 44 bytes of the entry of a held record.
  identity-fields :
      (file : File) (r : JournalRecord H) (h : Held sha256 c block page_size file r)
      → let at = r.offset + record_header_size + lead h.format in
        (slice (read_bytes file.byte_at at 44) 0 32 ≡ r.entry.block_hash)
        × (from_le_bytes (slice (read_bytes file.byte_at at 44) 40 4) ≡ r.entry.height)
  identity-fields file r h =
      let d = h.describes in
      let start = r.offset + record_header_size in
      let part : (a n : ℕ)
          → lead h.format + a + n ≤ length h.payload
          → a + n ≤ 44
          → slice (read_bytes file.byte_at (start + lead h.format) 44) a n
            ≡ slice h.payload (lead h.format + a) n =
        λ a n fits small.
          let at : start + lead h.format + a ≡ start + (lead h.format + a) = omega arith in
          slice-read_bytes file.byte_at (start + lead h.format) 44 a n small
          ∙ ap (λ (o : ℕ). read_bytes file.byte_at o n) at
          ∙ sym (
              slice-read_bytes file.byte_at start (length h.payload) (lead h.format + a) n
                (omega arith))
          ∙ ap (λ (bs : List ℕ). slice bs (lead h.format + a) n) h.on_disk.payload_on in
      let first : lead h.format + 0 ≡ lead h.format = omega arith in
      (
        part 0 32 (omega (arith, d.spelled.long)) (omega arith)
            ∙ ap (λ (o : ℕ). slice h.payload o 32) first
            ∙ d.spelled.hash_at,
        ap from_le_bytes (part 40 4 (omega (arith, d.spelled.long)) (omega arith))
            ∙ d.spelled.height_at,
      )

  -- A file that holds a record: the boundary of the record is valid, for every journal and epoch.
  pub validate_boundary-Held :
      (file : File) (r : JournalRecord H) (journal_id : List ℕ) (epoch : ℕ)
      → Held sha256 c block page_size file r
      → validate_boundary sha256 file page_size (record_boundary r journal_id epoch) ≡ ok tt
  unfolding validate_boundary record_boundary
  validate_boundary-Held file r journal_id epoch h =
      let d = h.describes in
      let o = h.on_disk in
      let (magic, format, status, span, len, sum) =
        header-fields sha256 c block page_size file r h in
      let (hash, height) = identity-fields file r h in
      rw
        (
          read_record_header-Held sha256 c block page_size file r h (r.offset + r.span)
              (omega arith),
          len,
          span,
          sum,
          ==_refl (r.offset + r.span),
          bytes_eq_refl r.checksum,
          read_chunks_whole (length h.payload) file (r.offset + record_header_size)
              (length h.payload) (omega arith) (omega (arith, d.room, o.inside)),
          o.payload_on,
          ← d.sealed,
          bytes_eq_refl r.checksum,
          format,
          read_exact_at_inside file (r.offset + record_header_size + lead h.format) 44
              (omega (arith, d.room, o.inside, d.spelled.long)),
          hash,
          height,
          bytes_eq_refl r.entry.block_hash,
          ==_refl r.entry.height,
        )
        refl
