-- ===== src/Journal/Record/Payload.antt =====
-- src/forest_journal.rs: the payload that `append_block` builds and the part of `read_record` that
-- decodes it.
use rpc_utreexo_bridge.Base.{
  ℕ, ◌^◌, Bool, true, false, not, ◌&&◌, Option, none, some, List, [], ◌∷◌, ◌++◌, ◌==◌, ltb, leb,
  if◌then◌else◌, length, take, drop, Result, ok, err,
}
use rpc_utreexo_bridge.Bytes.{to_le_bytes, bytes_eq}
use rpc_utreexo_bridge.Reader.{Reader, pure, ◌>>=◌, ◌>>◌, guard}
use rpc_utreexo_bridge.Consensus.{BitcoinConsensus}
use rpc_utreexo_bridge.Udata.Codec.{encode_compact_proof, decode_compact_proof}
use rpc_utreexo_bridge.Journal.Entry.Types.{JournalEntry}
use rpc_utreexo_bridge.Journal.Entry.Encode.{encode_entry}
use rpc_utreexo_bridge.Journal.Entry.Decode.{take_u32, take_array, first_byte, decode_entry}
use rpc_utreexo_bridge.Journal.Record.Types.{
  BlockHeader, JournalReplayPayload, RecordError, entry_failed, decode_failed, entry_truncated,
  missing_rows, bad_proof_rows, payload_trailing, header_mismatch, length_overflow,
}

abbrev pub legacy_record_version : ℕ
legacy_record_version = 1

abbrev pub replay_record_version : ℕ
replay_record_version = 2

abbrev pub record_version : ℕ
record_version = 3

-- An error of a called codec becomes an error of the record.
abbrev pub from {ℓ} :
    {E : Type 0} {A : Type ℓ} → (E → RecordError) → Reader E A → Reader RecordError A
from wrap m r = elim (m r) [ ok x ↦ ok x | err e ↦ err (wrap e) ]

abbrev pub is_none {ℓ} : {A : Type ℓ} → Option A → Bool
is_none none = true
is_none (some a) = false

-- `JournalEntry::decode(reader.get(..entry_len)?)?`, with the reader moved on.
unfoldable pub take_entry : ℕ → Reader RecordError JournalEntry
take_entry entry_len r =
    if leb entry_len (length r)
    then elim (decode_entry (take entry_len r)) [
      | ok entry ↦ ok (entry, drop entry_len r)
      | err e ↦ err (entry_failed e)
    ]
    else err entry_truncated

unfoldable pub at_end : Reader RecordError (Unit {0})
at_end [] = ok (tt, [])
at_end (b ∷ bs) = err payload_trailing

module _ {H : Type 0} (c : BitcoinConsensus) (block : BlockHeader H) where
  -- The test that the header belongs to the entry.
  unfoldable pub header_matches : H → JournalEntry → Bool
  header_matches header entry =
      bytes_eq (block.block_hash header) entry.block_hash
      && bytes_eq (block.prev_blockhash header) entry.previous_block_hash

  unfoldable pub decode_replay :
      ℕ → Reader RecordError (JournalEntry × Option (JournalReplayPayload H))
  decode_replay format = do
    entry_len ← from entry_failed take_u32
    entry ← take_entry entry_len
    guard (not (format == record_version && is_none entry.forest_rows)) missing_rows
    header ← from decode_failed block.codec.decode
    rows ← from entry_failed (take_array 1)
    guard (leb (first_byte rows) 63) bad_proof_rows
    proof ← from decode_failed (decode_compact_proof c)
    at_end
    guard (header_matches header entry) header_mismatch
    pure (
      entry,
      some (record { header = header; proof = proof; proof_forest_rows = first_byte rows }),
    )

  -- The entry and the replay payload of a record of the given version.
  unfoldable pub decode_payload :
      ℕ → List ℕ → Result RecordError (JournalEntry × Option (JournalReplayPayload H))
  decode_payload format payload =
      if format == legacy_record_version
      then elim (decode_entry payload) [
        | ok entry ↦ ok (entry, none)
        | err e ↦ err (entry_failed e)
      ]
      else elim (decode_replay format payload) [ ok (x, rest) ↦ ok x | err e ↦ err e ]

  -- The payload that `append_block` writes: four bytes for the length of the entry, the entry, the
  -- header, the rows and the proof.
  unfoldable pub encode_payload :
      JournalEntry → JournalReplayPayload H → Result RecordError (List ℕ)
  encode_payload entry replay = elim (encode_entry entry) [
    | err e ↦ err (entry_failed e)
    | ok bytes ↦
        if ltb (length bytes) (2 ^ 32)
        then ok (
            to_le_bytes 4 (length bytes)
            ++ (bytes
                ++ ((block.codec.encode replay.header).bytes
                    ++ ((replay.proof_forest_rows ∷ [])
                        ++ (encode_compact_proof c replay.proof).bytes))))
        else err length_overflow
  ]
