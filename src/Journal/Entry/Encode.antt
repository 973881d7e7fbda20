-- ===== src/Journal/Entry/Encode.antt =====
-- src/forest_journal.rs: `encode_entry_into` and its helpers. `bytes` is the vector written so far.
use Prim.Native.Nat.{bit_or}
use rpc_utreexo_bridge.Base.{
  ℕ, ◌*◌, ◌^◌, Bool, true, false, Option, none, some, List, [], ◌∷◌, ◌++◌, ltb, if◌then◌else◌,
  length, Result, ok, err, ◌>>=◌,
}
use rpc_utreexo_bridge.Bytes.{to_le_bytes}
use rpc_utreexo_bridge.Journal.Entry.Types.{
  JournalNodeState, JournalForestDelta, JournalIndexDelta, JournalEntry, EntryError,
  vector_exceeds_u32, invalid_rows,
}

-- `u8::from(bool)`
abbrev pub bool_byte : Bool → ℕ
bool_byte true = 1
bool_byte false = 0

-- `u8::from(ready) | (u8::from(spent) << 1)`
unfoldable pub state_flags : JournalNodeState → ℕ
state_flags s = bit_or (bool_byte s.ready) (bool_byte s.spent * 2)

unfoldable pub encode_state : List ℕ → JournalNodeState → List ℕ
encode_state bytes s = (bytes ++ (state_flags s ∷ [])) ++ s.hash

unfoldable pub encode_index_delta : List ℕ → JournalIndexDelta → List ℕ
encode_index_delta bytes d =
    ((bytes ++ d.outpoint.txid) ++ to_le_bytes 4 d.outpoint.vout) ++ to_le_bytes 8 d.position

-- The body of the loop over `entry.forest`.
unfoldable pub encode_forest_delta : List ℕ → JournalForestDelta → List ℕ
unfolding encode_state
encode_forest_delta bytes d =
    encode_state (encode_state (bytes ++ to_le_bytes 8 d.position) d.before) d.after

unfoldable pub push_len : List ℕ → ℕ → Result EntryError (List ℕ)
push_len bytes n = if ltb n (2 ^ 32) then ok (bytes ++ to_le_bytes 4 n) else err vector_exceeds_u32

-- `for item in items { encode(bytes, item) }`
unfoldable pub encode_each {ℓ} : {A : Type ℓ} → (List ℕ → A → List ℕ) → List ℕ → List A → List ℕ
encode_each encode bytes [] = bytes
encode_each encode bytes (x ∷ xs) = encode_each encode (encode bytes x) xs

unfoldable pub push_rows : List ℕ → Option ℕ → Result EntryError (List ℕ)
push_rows bytes none = ok bytes
push_rows bytes (some rows) = if ltb 63 rows then err invalid_rows else ok (bytes ++ (rows ∷ []))

-- The fields of fixed width, which come first.
unfoldable pub encode_fixed : JournalEntry → List ℕ → List ℕ
encode_fixed e bytes =
    (((bytes ++ e.block_hash) ++ to_le_bytes 8 e.num_leaves) ++ to_le_bytes 4 e.height)
    ++ e.previous_block_hash

unfoldable pub encode_entry_into : JournalEntry → List ℕ → Result EntryError (List ℕ)
encode_entry_into e bytes = do
  forest_counted ← push_len (encode_fixed e bytes) (length e.forest)
  removed_counted ←
      push_len (encode_each encode_forest_delta forest_counted e.forest) (length e.removed)
  added_counted ←
      push_len (encode_each encode_index_delta removed_counted e.removed) (length e.added)
  push_rows (encode_each encode_index_delta added_counted e.added) e.forest_rows

unfoldable pub encode_entry : JournalEntry → Result EntryError (List ℕ)
unfolding encode_entry_into
encode_entry e = encode_entry_into e []
