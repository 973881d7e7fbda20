-- ===== src/Journal/Entry/Decode.antt =====
-- src/forest_journal.rs: `decode_entry` and its helpers. Allocation failures are not modelled.
use Prim.Native.Nat.{bit_and}
use rpc_utreexo_bridge.Base.{
  ℕ, ◌/◌, not, Option, none, some, List, [], ◌∷◌, ltb, leb, ◌==◌, if◌then◌else◌, length, take, drop,
  Result, ok, err,
}
use rpc_utreexo_bridge.Bytes.{from_le_bytes}
use rpc_utreexo_bridge.Reader.{Reader, pure, ◌>>=◌, ◌>>◌, guard, repeat}
use rpc_utreexo_bridge.Journal.Entry.Types.{
  JournalNodeState, JournalForestDelta, JournalIndexDelta, JournalEntry, EntryError, ended,
  unknown_flags, length_exceeds_payload, trailing_bytes,
}

unfoldable pub take_array : ℕ → Reader EntryError (List ℕ)
take_array n r = if leb n (length r) then ok (take n r, drop n r) else err ended

unfoldable pub take_u32 : Reader EntryError ℕ
take_u32 = do bytes ← take_array 4; pure (from_le_bytes bytes)

unfoldable pub take_u64 : Reader EntryError ℕ
take_u64 = do bytes ← take_array 8; pure (from_le_bytes bytes)

-- The check that the rest of the payload can hold `n` elements.
unfoldable pub check_len : ℕ → ℕ → Reader EntryError ℕ
check_len element_size n r =
    if ltb (length r / element_size) n then err length_exceeds_payload else ok (n, r)

unfoldable pub take_len : ℕ → Reader EntryError ℕ
take_len element_size = do n ← take_u32; check_len element_size n

-- `take_array::<1>(reader)?[0]`
abbrev pub first_byte : List ℕ → ℕ
first_byte [] = 0
first_byte (b ∷ bs) = b

unfoldable pub decode_state : Reader EntryError JournalNodeState
decode_state = do
  array ← take_array 1
  guard (bit_and (first_byte array) 0xfc == 0) unknown_flags
  hash ← take_array 32
  pure (record {
    ready = not (bit_and (first_byte array) 1 == 0);
    spent = not (bit_and (first_byte array) 2 == 0);
    hash = hash;
  })

unfoldable pub decode_forest_delta : Reader EntryError JournalForestDelta
decode_forest_delta = do
  position ← take_u64
  before ← decode_state
  after ← decode_state
  pure (record { position = position; before = before; after = after })

unfoldable pub decode_index_delta : Reader EntryError JournalIndexDelta
decode_index_delta = do
  txid ← take_array 32
  vout ← take_u32
  position ← take_u64
  pure (record { outpoint = record { txid = txid; vout = vout }; position = position })

-- `match reader { [] => None, [rows] if *rows <= 63 => Some(*rows), _ => bail!(..) }`
unfoldable pub decode_rows : Reader EntryError (Option ℕ)
decode_rows [] = ok (none, [])
decode_rows (rows ∷ []) = if leb rows 63 then ok (some rows, []) else err trailing_bytes
decode_rows (_ ∷ _ ∷ _) = err trailing_bytes

unfoldable pub decode_entry_reader : Reader EntryError JournalEntry
decode_entry_reader = do
  block_hash ← take_array 32
  num_leaves ← take_u64
  height ← take_u32
  previous_block_hash ← take_array 32
  forest_len ← take_len 74
  forest ← repeat forest_len decode_forest_delta
  removed_len ← take_len 44
  removed ← repeat removed_len decode_index_delta
  added_len ← take_len 44
  added ← repeat added_len decode_index_delta
  forest_rows ← decode_rows
  pure (record {
    height = height;
    block_hash = block_hash;
    num_leaves = num_leaves;
    previous_block_hash = previous_block_hash;
    forest = forest;
    removed = removed;
    added = added;
    forest_rows = forest_rows;
  })

abbrev pub value_of {ℓ} : {A : Type ℓ} → Result EntryError (A × List ℕ) → Result EntryError A
value_of (ok (a, rest)) = ok a
value_of (err e) = err e

unfoldable pub decode_entry : List ℕ → Result EntryError JournalEntry
decode_entry bytes = value_of (decode_entry_reader bytes)
