-- ===== src/Journal/Record/ReadBack.antt =====
-- src/forest_journal.rs: `write_record`, with the payload of `append_block`, and the functions that
-- read the record.
use rpc_utreexo_bridge.Base.{ℕ, ◌+◌, ◌≤◌, ◌≡◌, List, length, ok, some}
use rpc_utreexo_bridge.File.{File, SameOn}
use rpc_utreexo_bridge.Consensus.{BitcoinConsensus, Laws, IsLawful}
use rpc_utreexo_bridge.Journal.Entry.Types.{JournalEntry}
use rpc_utreexo_bridge.Journal.Record.Types.{
  BlockHeader, JournalReplayPayload, JournalRecord, record_boundary,
}
use rpc_utreexo_bridge.Journal.Record.Payload.{encode_payload}
use rpc_utreexo_bridge.Journal.Record.Disk.{
  WriteOutcome, write_record, read_record, validate_boundary,
}
use rpc_utreexo_bridge.Journal.Record.Held.{read_record-Held}
use rpc_utreexo_bridge.Journal.Record.Boundary.{validate_boundary-Held}
use rpc_utreexo_bridge.Journal.Record.Stored.{write_record-Appends}
use rpc_utreexo_bridge.Journal.Record.RoundTrip.{IsAppendable, encode_payload-IsPayload}

module _ {H : Type 0} (sha256 : List ℕ → List ℕ)
    (digest_32 : (bs : List ℕ) → length (sha256 bs) ≡ 32) (c : BitcoinConsensus) (laws : Laws c)
    (block : BlockHeader H) (page_size : ℕ) (V : H → Type 0)
    (header_lawful : IsLawful V block.codec) where
  -- A block that `append_block` accepts, whose proof is within the decoder's limits with scripts that encode within 4,000,000 bytes each, its payload, and a write of them at an offset inside the file that succeeded:
  -- the record has the block's entry and replay payload, `read_record` finds it with every end that is not below its own,
  -- `validate_boundary` accepts its boundary, and the bytes below the offset are as before.
  pub read_record-write_record :
      (io : WriteOutcome) (file file' : File) (offset end : ℕ) (entry : JournalEntry)
      (replay : JournalReplayPayload H) (payload : List ℕ) (r : JournalRecord H)
      (journal_id : List ℕ) (epoch : ℕ)
      → IsAppendable sha256 c laws block page_size V header_lawful entry replay
      → encode_payload c block entry replay ≡ ok payload
      → offset ≤ file.len
      → write_record sha256 c block io file page_size offset entry (some replay) payload 3
        ≡ (file', ok r)
      → r.offset + r.span ≤ end
      → (r.entry ≡ entry)
        × (r.replay ≡ some replay)
        × (read_record sha256 c block file' page_size r.offset end ≡ ok r)
        × (validate_boundary sha256 file' page_size (record_boundary r journal_id epoch) ≡ ok tt)
        × SameOn file.byte_at file'.byte_at 0 offset
  read_record-write_record io file file' offset end entry replay payload r id epoch a e start w
        last =
      let (appends, same_entry, same_replay, fresh) =
        write_record-Appends sha256 digest_32 c block page_size file offset entry (some replay)
          payload 3 io start
          (encode_payload-IsPayload sha256 c laws block page_size V header_lawful entry replay a e)
          w in
      (
        same_entry,
        same_replay,
        read_record-Held sha256 c block page_size file' r appends.held end last,
        validate_boundary-Held sha256 c block page_size file' r id epoch appends.held,
        appends.below,
      )
