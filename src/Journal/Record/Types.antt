-- ===== src/Journal/Record/Types.antt =====
-- src/forest_journal.rs: `JournalStatus`, `JournalReplayPayload` and `JournalRecord`. The block header
-- of the `bitcoin` crate is the parameter `H`.
use rpc_utreexo_bridge.Base.{
  ℕ, ◌+◌, ◌≡◌, refl, Option, List, [], ◌∷◌, ◌==◌, if◌then◌else◌, Result, ok, err, replicate,
}
use rpc_utreexo_bridge.Consensus.{ConsensusError, Codec}
use rpc_utreexo_bridge.Udata.Types.{CompactBlockProof}
use rpc_utreexo_bridge.Journal.Entry.Types.{JournalEntry, EntryError}
use rpc_utreexo_bridge.Journal.Marker.Defs.{JournalBoundary}

-- What the journal uses of `bitcoin::block::Header`.
pub record BlockHeader (H : Type 0) : Type 0 where
  pub codec : Codec H
  pub block_hash : H → List ℕ
  pub prev_blockhash : H → List ℕ

pub data JournalStatus : Type 0 where
  forward rolled_back : JournalStatus

-- One constructor for each message of the record functions.
pub data RecordError : Type 0 where
  entry_failed : EntryError → RecordError
  decode_failed : ConsensusError → RecordError
  too_large length_overflow span_overflow file_overflow io_failed : RecordError
  header_truncated bad_magic unsupported_version unknown_status bad_span : RecordError
  trailer_truncated bad_trailer payload_truncated checksum_mismatch : RecordError
  entry_truncated missing_rows bad_proof_rows payload_trailing header_mismatch : RecordError
  boundary_mismatch boundary_checksum boundary_identity final_mismatch : RecordError

unfoldable pub from_byte : ℕ → Result RecordError JournalStatus
from_byte byte =
    if byte == 0 then ok forward else if byte == 1 then ok rolled_back else err unknown_status

unfoldable pub to_byte : JournalStatus → ℕ
to_byte forward = 0
to_byte rolled_back = 1

pub from_byte-to_byte : (s : JournalStatus) → from_byte (to_byte s) ≡ ok s
unfolding from_byte to_byte
from_byte-to_byte forward = refl
from_byte-to_byte rolled_back = refl

pub record JournalReplayPayload (H : Type 0) : Type 0 where
  pub header : H
  pub proof : CompactBlockProof
  pub proof_forest_rows : ℕ

pub record JournalRecord (H : Type 0) : Type 0 where
  pub entry : JournalEntry
  pub status : JournalStatus
  pub replay : Option (JournalReplayPayload H)
  pub offset : ℕ
  pub span : ℕ
  pub checksum : List ℕ

unfoldable pub empty_boundary : List ℕ → ℕ → ℕ → JournalBoundary
empty_boundary journal_id epoch page_size = record {
  journal_id = journal_id;
  epoch = epoch;
  end = page_size;
  offset = 0;
  height = 0;
  block_hash = replicate 32 0;
  checksum = replicate 32 0;
}

module _ {H : Type 0} where
  unfoldable pub record_boundary : JournalRecord H → List ℕ → ℕ → JournalBoundary
  record_boundary r journal_id epoch = record {
    journal_id = journal_id;
    epoch = epoch;
    end = r.offset + r.span;
    offset = r.offset;
    height = r.entry.height;
    block_hash = r.entry.block_hash;
    checksum = r.checksum;
  }

  -- `records.last().map_or_else(empty_boundary, record_boundary)`
  unfoldable pub last_boundary : List ℕ → ℕ → ℕ → List (JournalRecord H) → JournalBoundary
  last_boundary journal_id epoch page_size [] = empty_boundary journal_id epoch page_size
  last_boundary journal_id epoch page_size (r ∷ []) = record_boundary r journal_id epoch
  last_boundary journal_id epoch page_size (r ∷ s ∷ rs) =
      last_boundary journal_id epoch page_size (s ∷ rs)
