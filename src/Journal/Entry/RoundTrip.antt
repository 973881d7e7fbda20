-- ===== src/Journal/Entry/RoundTrip.antt =====
-- src/forest_journal.rs: `decode_entry` reads back what `encode_entry` wrote.
use Prim.Native.Nat.{bit_and}
use rpc_utreexo_bridge.Base.{
  ℕ, ◌*◌, ◌/◌, ◌^◌, ◌≤◌, ◌<◌, ◌≡◌, refl, ap, ◌∙◌, Bool, true, false, not, ◌==◌, Option, none, some,
  List, [], ◌∷◌, ◌++◌, le→leb, length, All, length-append, take-append, drop-append, ok, arith,
}
use rpc_utreexo_bridge.Bytes.{to_le_bytes, from_le_bytes-to_le_bytes, length-to_le_bytes}
use rpc_utreexo_bridge.Reader.{
  Reader, ◌>>=◌, repeat, Reads, Reads-bind, Reads-bind_pure, Reads-repeat, bind-ok, Ends, Ends-bind,
  concat_map, length-concat_map,
}
use rpc_utreexo_bridge.Journal.Entry.Types.{
  JournalNodeState, JournalForestDelta, JournalIndexDelta, JournalEntry, EntryError, IsTyped, Fits,
  IsTypedState, IsTypedForestDelta, IsTypedIndexDelta, RowsFit,
}
use rpc_utreexo_bridge.Journal.Entry.Encode.{state_flags, encode_entry}
use rpc_utreexo_bridge.Journal.Entry.Decode.{
  value_of, take_array, take_u32, take_u64, check_len, take_len, decode_state, decode_forest_delta,
  decode_index_delta, decode_rows, decode_entry_reader, decode_entry,
}
use rpc_utreexo_bridge.Journal.Entry.Layout.{
  state_layout, forest_layout, index_layout, rows_layout, counted, layout, length-forest_layout,
  length-index_layout, encode_entry_into-layout,
}

pub take_array-Reads : (n : ℕ) (bs : List ℕ) → length bs ≡ n → Reads (take_array n) bs bs
unfolding take_array
take_array-Reads n bs h = record {
  at = λ rest.
      rw (← h, le→leb (length bs) (length (bs ++ rest)) (omega (arith, length-append bs rest)))
        (cc (take-append bs rest, drop-append bs rest));
}

pub take_u32-Reads : (v : ℕ) → v < 256 ^ 4 → Reads take_u32 (to_le_bytes 4 v) v
unfolding take_u32
take_u32-Reads v h =
    Reads-bind_pure (take_array 4) _ (take_array-Reads 4 _ (length-to_le_bytes 4 v))
      (record { at = λ rest. ap (λ w. ok (w, rest)) (from_le_bytes-to_le_bytes 4 v h) })

pub take_u64-Reads : (v : ℕ) → v < 256 ^ 8 → Reads take_u64 (to_le_bytes 8 v) v
unfolding take_u64
take_u64-Reads v h =
    Reads-bind_pure (take_array 8) _ (take_array-Reads 8 _ (length-to_le_bytes 8 v))
      (record { at = λ rest. ap (λ w. ok (w, rest)) (from_le_bytes-to_le_bytes 8 v h) })

-- The flag byte passes the check, and its two bits are the two flags.
guard_flags :
    (ready spent : Bool) (hash : List ℕ)
    → let s : JournalNodeState = record { ready = ready; spent = spent; hash = hash } in
      ((bit_and (state_flags s) 0xfc == 0) ≡ true)
      × (not (bit_and (state_flags s) 1 == 0) ≡ ready)
      × (not (bit_and (state_flags s) 2 == 0) ≡ spent)
unfolding state_flags
guard_flags true true hash = (refl, refl, refl)
guard_flags true false hash = (refl, refl, refl)
guard_flags false true hash = (refl, refl, refl)
guard_flags false false hash = (refl, refl, refl)

decode_state-Reads : (s : JournalNodeState) → IsTypedState s → Reads decode_state (state_layout s) s
unfolding decode_state
decode_state-Reads s h =
    let (e, r, t) = guard_flags s.ready s.spent s.hash in
    Reads-bind (take_array 1) _ (take_array-Reads 1 (state_flags s ∷ []) refl) (record {
      at = λ rest. rw e (
          bind-ok (take_array 32) _ (s.hash ++ rest) rest s.hash
            ((take_array-Reads 32 s.hash h.0).at rest)
          ∙ rw (r, t));
    })

decode_forest_delta-Reads :
    (d : JournalForestDelta) → IsTypedForestDelta d → Reads decode_forest_delta (forest_layout d) d
unfolding decode_forest_delta
decode_forest_delta-Reads d h = Reads-bind take_u64 _ (take_u64-Reads d.position h.0) (
    Reads-bind decode_state _ (decode_state-Reads d.before h.1) (
      Reads-bind_pure decode_state _ (decode_state-Reads d.after h.2)
        (record { at = λ rest. refl })))

decode_index_delta-Reads :
    (d : JournalIndexDelta) → IsTypedIndexDelta d → Reads decode_index_delta (index_layout d) d
unfolding decode_index_delta
decode_index_delta-Reads d h = Reads-bind (take_array 32) _ (take_array-Reads 32 _ h.0.0) (
    Reads-bind take_u32 _ (take_u32-Reads d.outpoint.vout h.1)
      (Reads-bind_pure take_u64 _ (take_u64-Reads d.position h.2) (record { at = λ rest. refl })))

map_All {ℓ} :
    {A : Type ℓ} (P Q : A → Type 0) (xs : List A) → ((a : A) → P a → Q a) → All P xs → All Q xs
map_All P Q [] f h = tt
map_All P Q (x ∷ xs) f h = (f x h.0, map_All P Q xs f h.1)

take_len-ok :
    (size n : ℕ) (r : List ℕ)
    → n < 2 ^ 32
    → n ≤ length r / size
    → take_len size (to_le_bytes 4 n ++ r) ≡ ok (n, r)
unfolding take_len check_len
take_len-ok size n r h k =
    bind-ok take_u32 _ (to_le_bytes 4 n ++ r) r n ((take_u32-Reads n h).at r) ∙ ground arith

-- A counted vector: the length check passes, since the elements that follow are all there.
counted-Ends :
    {A B : Type 0} (size : ℕ) (m : Reader EntryError A) (enc : A → List ℕ)
    (f : List A → Reader EntryError B) (xs : List A) {tail : List ℕ} {b : B}
    → ((n k : ℕ) → n * size ≤ k → n ≤ k / size)
    → All (λ x. length (enc x) ≡ size) xs
    → All (λ x. Reads m (enc x) x) xs
    → length xs < 2 ^ 32
    → Ends (f xs) tail b
    → Ends (take_len size >>= λ n. repeat n m >>= f) (counted enc xs tail) b
counted-Ends size m enc f xs {tail} div sized reads short hf = record {
  whole =
      let body = concat_map enc xs ++ tail in
      bind-ok (take_len size) _ (to_le_bytes 4 (length xs) ++ body) body (length xs)
        (take_len-ok size (length xs) body short (div (length xs) (length body) room))
      ∙ (Ends-bind (repeat (length xs) m) f (Reads-repeat m enc xs reads) hf).whole;
}
  where
    room : length xs * size ≤ length (concat_map enc xs ++ tail)
    room =
        omega (arith, length-append (concat_map enc xs) tail, length-concat_map enc size xs sized)

decode_rows-whole :
    (rows : Option ℕ) → RowsFit rows → decode_rows (rows_layout rows) ≡ ok (rows, [])
unfolding decode_rows
decode_rows-whole none h = refl
decode_rows-whole (some rows) h = ground arith

pub decode_entry-layout : (e : JournalEntry) → IsTyped e → Fits e → decode_entry (layout e) ≡ ok e
unfolding decode_entry decode_entry_reader
decode_entry-layout e t f = ap value_of chain.whole
  where
    forest-div : (n k : ℕ) → n * 74 ≤ k → n ≤ k / 74
    forest-div n k h = omega arith

    index-div : (n k : ℕ) → n * 44 ≤ k → n ≤ k / 44
    index-div n k h = omega arith

    chain : Ends decode_entry_reader (layout e) e
    chain = Ends-bind (take_array 32) _ (take_array-Reads 32 _ t.block_hash_32.0) (
        Ends-bind take_u64 _ (take_u64-Reads e.num_leaves t.num_leaves_u64) (
          Ends-bind take_u32 _ (take_u32-Reads e.height t.height_u32) (
            Ends-bind (take_array 32) _ (take_array-Reads 32 _ t.previous_32.0) (
              counted-Ends 74 decode_forest_delta forest_layout _ e.forest forest-div
                (map_All _ _ e.forest length-forest_layout t.forest_typed)
                (map_All _ _ e.forest decode_forest_delta-Reads t.forest_typed) f.forest_fits
                (counted-Ends 44 decode_index_delta index_layout _ e.removed index-div
                  (map_All _ _ e.removed length-index_layout t.removed_typed)
                  (map_All _ _ e.removed decode_index_delta-Reads t.removed_typed) f.removed_fits
                  (counted-Ends 44 decode_index_delta index_layout _ e.added index-div
                    (map_All _ _ e.added length-index_layout t.added_typed)
                    (map_All _ _ e.added decode_index_delta-Reads t.added_typed) f.added_fits
                    (record {
                      whole =
                          bind-ok decode_rows _ _ [] e.forest_rows
                            (decode_rows-whole e.forest_rows f.rows_fit);
                    })))))))

-- Every entry of typed fields whose vectors fit a u32 and whose forest rows are at most 63 is encoded, and decoding
-- the bytes gives the entry back.
pub decode_entry-encode_entry :
    (e : JournalEntry)
    → IsTyped e
    → Fits e
    → (bytes : List ℕ) × (encode_entry e ≡ ok bytes) × (decode_entry bytes ≡ ok e)
unfolding encode_entry
decode_entry-encode_entry e t f =
    (layout e, encode_entry_into-layout e [] f, decode_entry-layout e t f)
