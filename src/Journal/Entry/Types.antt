-- ===== src/Journal/Entry/Types.antt =====
-- src/forest_journal.rs: what a block changes. Hashes are byte strings, the other fields are the
-- values of unsigned machine integers; `IsTyped` states the ranges that the Rust types give.
use rpc_utreexo_bridge.Base.{
  ℕ, ◌-◌, ◌^◌, ◌≤◌, ◌<◌, Bool, Option, none, some, List, leb, if◌then◌else◌, length, Result, ok,
  err, All,
}
use rpc_utreexo_bridge.Bytes.{IsBytes}

pub record JournalNodeState : Type 0 where
  pub ready : Bool
  pub spent : Bool
  pub hash : List ℕ

pub record JournalForestDelta : Type 0 where
  pub position : ℕ
  pub before : JournalNodeState
  pub after : JournalNodeState

-- `bitcoin::OutPoint`
pub record OutPoint : Type 0 where
  pub txid : List ℕ
  pub vout : ℕ

pub record JournalIndexDelta : Type 0 where
  pub outpoint : OutPoint
  pub position : ℕ

pub record JournalEntry : Type 0 where
  pub height : ℕ
  pub block_hash : List ℕ
  pub num_leaves : ℕ
  pub previous_block_hash : List ℕ
  pub forest : List JournalForestDelta
  pub removed : List JournalIndexDelta
  pub added : List JournalIndexDelta
  pub forest_rows : Option ℕ

-- One constructor for each message of the codec.
pub data EntryError : Type 0 where
  leaves_underflow ended unknown_flags vector_exceeds_u32 length_exceeds_payload : EntryError
  invalid_rows trailing_bytes : EntryError

-- `num_leaves.checked_sub(added.len())`
unfoldable pub previous_num_leaves : JournalEntry → Result EntryError ℕ
previous_num_leaves e =
    if leb (length e.added) e.num_leaves
    then ok (e.num_leaves - length e.added)
    else err leaves_underflow

abbrev pub IsTypedState : JournalNodeState → Type 0
IsTypedState s = IsBytes 32 s.hash

abbrev pub IsTypedForestDelta : JournalForestDelta → Type 0
IsTypedForestDelta d = (d.position < 256 ^ 8) × IsTypedState d.before × IsTypedState d.after

abbrev pub IsTypedIndexDelta : JournalIndexDelta → Type 0
IsTypedIndexDelta d =
    IsBytes 32 d.outpoint.txid × (d.outpoint.vout < 256 ^ 4) × (d.position < 256 ^ 8)

-- The ranges of the fields, which the Rust types give.
pub record IsTyped (e : JournalEntry) : Type 0 where
  pub height_u32 : e.height < 256 ^ 4
  pub block_hash_32 : IsBytes 32 e.block_hash
  pub num_leaves_u64 : e.num_leaves < 256 ^ 8
  pub previous_32 : IsBytes 32 e.previous_block_hash
  pub forest_typed : All IsTypedForestDelta e.forest
  pub removed_typed : All IsTypedIndexDelta e.removed
  pub added_typed : All IsTypedIndexDelta e.added

abbrev pub RowsFit : Option ℕ → Type 0
RowsFit none = Unit {0}
RowsFit (some rows) = rows ≤ 63

-- What the encoder checks: vector lengths in a u32, and forest rows of at most 63.
pub record Fits (e : JournalEntry) : Type 0 where
  pub forest_fits : length e.forest < 2 ^ 32
  pub removed_fits : length e.removed < 2 ^ 32
  pub added_fits : length e.added < 2 ^ 32
  pub rows_fit : RowsFit e.forest_rows
