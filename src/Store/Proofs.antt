-- ===== src/Store/Proofs.antt =====
-- src/blockfile.rs: `ProofFile`. The atomic writer position is a number: one call runs at a time.
-- `deserialize` of the `bitcoin` crate is a parameter; a write or a resize of the file may fail, and
-- the failure tells what it left behind.
use rpc_utreexo_bridge.Base.{
  true, false, checked_add, ℕ, Bool, false, ◌&&◌, Option, none, some, List, length, if◌then◌else◌,
  leb, ltb, Result, ok, err,
}
use rpc_utreexo_bridge.File.{Outcome, done, failed, File, read_exact_at, write_all_at, set_len}
use rpc_utreexo_bridge.Udata.Types.{CompactBlockProof, max_compact_proof_bytes}
use rpc_utreexo_bridge.Store.Index.{BlockIndex}

pub record ProofFile : Type 0 where
  pub file : File
  pub writer_pos : ℕ

pub data StoreError : Type 0 where
  exceeds_limit offset_overflow file_too_short io_failed : StoreError

unfoldable pub open_file : File → ProofFile
open_file file = record { file = file; writer_pos = file.len }

-- `write_all_at` and the answer of `append`: the position was advanced before the write.
abbrev pub written : Outcome → ProofFile → List ℕ → ℕ → ProofFile × Result StoreError BlockIndex
written done f buffer end = (
  record { file = write_all_at f.file f.writer_pos buffer; writer_pos = end },
  ok (record { offset = f.writer_pos; size = length buffer; proof_forest_rows = none }),
)
written (failed left) f buffer end = (record { file = left; writer_pos = end }, err io_failed)

abbrev pub advance :
    Option ℕ → Outcome → ProofFile → List ℕ → ProofFile × Result StoreError BlockIndex
advance none outcome f buffer = (f, err offset_overflow)
advance (some end) outcome f buffer = written outcome f buffer end

unfoldable pub append_bytes :
    Outcome → ProofFile → List ℕ → ProofFile × Result StoreError BlockIndex
append_bytes outcome f buffer =
    if ltb max_compact_proof_bytes (length buffer)
    then (f, err exceeds_limit)
    else advance (checked_add f.writer_pos (length buffer)) outcome f buffer

abbrev pub within : Option ℕ → ℕ → Bool
within none len = false
within (some end) len = leb end len

unfoldable pub contains : ProofFile → BlockIndex → Bool
contains f index =
    leb index.size max_compact_proof_bytes
    && within (checked_add index.offset index.size) f.file.len

abbrev pub index_end : Option BlockIndex → Option ℕ
index_end none = some 0
index_end (some index) = checked_add index.offset index.size

-- The end of `truncate_after`; a failed `sync_data` after the resize is an error as well.
abbrev pub cut : Outcome → Bool → ProofFile → ℕ → ProofFile × Result StoreError (Unit {0})
cut (failed left) synced f end = (record f { file = left }, err io_failed)
cut done synced f end = (
  record { file = set_len f.file end; writer_pos = end },
  if synced then ok tt else err io_failed,
)

-- `stated`: whether `metadata` succeeded.
abbrev pub cut_at :
    Option ℕ → Bool → Outcome → Bool → ProofFile → ProofFile × Result StoreError (Unit {0})
cut_at none stated outcome synced f = (f, err offset_overflow)
cut_at (some end) false outcome synced f = (f, err io_failed)
cut_at (some end) true outcome synced f =
    if ltb f.file.len end then (f, err file_too_short) else cut outcome synced f end

unfoldable pub truncate_after :
    Bool → Outcome → Bool → ProofFile → Option BlockIndex → ProofFile × Result StoreError (Unit {0})
truncate_after stated outcome synced f index = cut_at (index_end index) stated outcome synced f

module _ (serialize : CompactBlockProof → List ℕ)
    (deserialize : List ℕ → Option CompactBlockProof) where
  unfoldable pub append :
      Outcome → ProofFile → CompactBlockProof → ProofFile × Result StoreError BlockIndex
  append outcome f proof = append_bytes outcome f (serialize proof)

  abbrev pub parse : Option (List ℕ) → Option CompactBlockProof
  parse none = none
  parse (some bytes) = deserialize bytes

  unfoldable pub get_proof : ProofFile → BlockIndex → Option CompactBlockProof
  get_proof f index =
      if contains f index then parse (read_exact_at f.file index.offset index.size) else none
