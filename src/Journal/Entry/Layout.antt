-- ===== src/Journal/Entry/Layout.antt =====
-- src/forest_journal.rs: the bytes that `encode_entry_into` writes, as one expression, and their
-- lengths.
use rpc_utreexo_bridge.Base.{
  ℕ, ◌^◌, ◌<◌, ◌≡◌, ap, ◌∙◌, sym, Option, none, some, List, [], ◌∷◌, ◌++◌, append-nil, append_assoc,
  lt→ltb, length, length-append, ok, arith,
}
use rpc_utreexo_bridge.Bytes.{to_le_bytes, length-to_le_bytes}
use rpc_utreexo_bridge.Reader.{concat_map}
use rpc_utreexo_bridge.Journal.Entry.Types.{
  JournalNodeState, JournalForestDelta, JournalIndexDelta, JournalEntry, Fits, IsTypedForestDelta,
  IsTypedIndexDelta, RowsFit,
}
use rpc_utreexo_bridge.Journal.Entry.Encode.{
  state_flags, encode_index_delta, encode_forest_delta, push_len, encode_each, push_rows,
  encode_fixed, encode_entry_into,
}

-- The layout, with every piece to the right of the one before it.
abbrev pub state_layout : JournalNodeState → List ℕ
state_layout s = (state_flags s ∷ []) ++ s.hash

abbrev pub forest_layout : JournalForestDelta → List ℕ
forest_layout d = to_le_bytes 8 d.position ++ (state_layout d.before ++ state_layout d.after)

abbrev pub index_layout : JournalIndexDelta → List ℕ
index_layout d = d.outpoint.txid ++ (to_le_bytes 4 d.outpoint.vout ++ to_le_bytes 8 d.position)

abbrev pub rows_layout : Option ℕ → List ℕ
rows_layout none = []
rows_layout (some rows) = rows ∷ []

abbrev pub counted {ℓ} : {A : Type ℓ} → (A → List ℕ) → List A → List ℕ → List ℕ
counted layout xs tail = to_le_bytes 4 (length xs) ++ (concat_map layout xs ++ tail)

abbrev pub layout : JournalEntry → List ℕ
layout e =
    e.block_hash
    ++ (to_le_bytes 8 e.num_leaves
        ++ (to_le_bytes 4 e.height
            ++ (e.previous_block_hash
                ++ counted forest_layout e.forest (
                    counted index_layout e.removed
                      (counted index_layout e.added (rows_layout e.forest_rows))))))

pub length-forest_layout :
    (d : JournalForestDelta) → IsTypedForestDelta d → length (forest_layout d) ≡ 74
length-forest_layout d h = omega (
  arith,
  length-append (to_le_bytes 8 d.position) (state_layout d.before ++ state_layout d.after),
  length-append (state_layout d.before) (state_layout d.after),
  length-to_le_bytes 8 d.position,
  h.1.0,
  h.2.0,
)

pub length-index_layout :
    (d : JournalIndexDelta) → IsTypedIndexDelta d → length (index_layout d) ≡ 44
length-index_layout d h = omega (
  arith,
  length-append d.outpoint.txid (to_le_bytes 4 d.outpoint.vout ++ to_le_bytes 8 d.position),
  length-append (to_le_bytes 4 d.outpoint.vout) (to_le_bytes 8 d.position),
  length-to_le_bytes 4 d.outpoint.vout,
  length-to_le_bytes 8 d.position,
  h.0.0,
)

encode_each-layout {ℓ} :
    {A : Type ℓ} (enc : List ℕ → A → List ℕ) (lay : A → List ℕ)
    → ((bs : List ℕ) (x : A) → enc bs x ≡ bs ++ lay x)
    → (bs : List ℕ) (xs : List A) → encode_each enc bs xs ≡ bs ++ concat_map lay xs
unfolding encode_each
encode_each-layout enc lay h bs [] = sym (append-nil bs)
encode_each-layout enc lay h bs (x ∷ xs) =
    encode_each-layout enc lay h (enc bs x) xs
    ∙ ap (λ ys. ys ++ concat_map lay xs) (h bs x)
    ∙ append_assoc bs (lay x) (concat_map lay xs)

encode_forest_delta-layout :
    (bs : List ℕ) (d : JournalForestDelta) → encode_forest_delta bs d ≡ bs ++ forest_layout d
unfolding encode_forest_delta
encode_forest_delta-layout bs d = simp append_assoc

encode_index_delta-layout :
    (bs : List ℕ) (d : JournalIndexDelta) → encode_index_delta bs d ≡ bs ++ index_layout d
unfolding encode_index_delta
encode_index_delta-layout bs d = simp append_assoc

push_len-ok : (bs : List ℕ) (n : ℕ) → n < 2 ^ 32 → push_len bs n ≡ ok (bs ++ to_le_bytes 4 n)
unfolding push_len
push_len-ok bs n h = rw (lt→ltb n (2 ^ 32) h)

push_rows-ok :
    (bs : List ℕ) (rows : Option ℕ) → RowsFit rows → push_rows bs rows ≡ ok (bs ++ rows_layout rows)
unfolding push_rows
push_rows-ok bs none h = ap ok (sym (append-nil bs))
push_rows-ok bs (some rows) h = ground arith

-- What the encoder writes behind `bytes`, when nothing is refused.
pub encode_entry_into-layout :
    (e : JournalEntry) (bytes : List ℕ)
    → Fits e
    → encode_entry_into e bytes ≡ ok (bytes ++ layout e)
unfolding encode_entry_into encode_fixed
encode_entry_into-layout e bytes f =
    rw
      (
        push_len-ok _ _ f.forest_fits,
        push_len-ok _ _ f.removed_fits,
        push_len-ok _ _ f.added_fits,
        push_rows-ok _ _ f.rows_fit,
        encode_each-layout encode_forest_delta forest_layout encode_forest_delta-layout,
        encode_each-layout encode_index_delta index_layout encode_index_delta-layout,
        encode_each-layout encode_index_delta index_layout encode_index_delta-layout,
      )
      (simp append_assoc)
