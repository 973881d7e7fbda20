-- ===== src/Journal/Entry/Canonical.antt =====
-- src/forest_journal.rs: `decode_entry` accepts nothing but what `encode_entry` writes.
use rpc_utreexo_bridge.Base.{
  ℕ, ◌≡◌, ap, ◌∙◌, sym, List, [], ◌++◌, append-nil, All, Result, ok, err, arith,
}
use rpc_utreexo_bridge.Bytes.{IsByte}
use rpc_utreexo_bridge.Reader.{
  repeat, Spells, Spells-bind, Spells-pure, Spells-repeat, Drains, Drains-bind, bind-eq-ok,
}
use rpc_utreexo_bridge.Journal.Entry.Types.{JournalEntry, EntryError, IsTyped, Fits}
use rpc_utreexo_bridge.Journal.Entry.Encode.{encode_entry}
use rpc_utreexo_bridge.Journal.Entry.Layout.{
  forest_layout, index_layout, rows_layout, layout, encode_entry_into-layout,
}
use rpc_utreexo_bridge.Journal.Entry.Decode.{
  value_of, take_array, take_u32, take_u64, take_len, decode_forest_delta, decode_index_delta,
  decode_rows, decode_entry_reader, decode_entry,
}
use rpc_utreexo_bridge.Journal.Entry.Parts.{
  take_array-Spells, take_u32-Spells, take_u64-Spells, take_len-Spells, decode_forest_delta-Spells,
  decode_index_delta-Spells, decode_rows-eq-ok, decode_rows-Spells,
}

decode_entry_reader-Spells :
    Spells decode_entry_reader (λ bs e. (bs ≡ layout e) × (IsTyped e × Fits e))
unfolding decode_entry_reader
decode_entry_reader-Spells = Spells-bind (take_array 32) _ _ _ (take_array-Spells 32) λ hash b1 h1.
    Spells-bind take_u64 _ _ _ take_u64-Spells λ num_leaves b2 h2.
      Spells-bind take_u32 _ _ _ take_u32-Spells λ height b3 h3.
        Spells-bind (take_array 32) _ _ _ (take_array-Spells 32) λ previous b4 h4.
          Spells-bind (take_len 74) _ _ _ (take_len-Spells 74) λ forest_len b5 h5.
            Spells-bind (repeat forest_len decode_forest_delta) _ _ _
              (Spells-repeat decode_forest_delta forest_layout _ decode_forest_delta-Spells
                forest_len)
              λ forest b6 h6.
                Spells-bind (take_len 44) _ _ _ (take_len-Spells 44) λ removed_len b7 h7.
                  Spells-bind (repeat removed_len decode_index_delta) _ _ _
                    (Spells-repeat decode_index_delta index_layout _ decode_index_delta-Spells
                      removed_len)
                    λ removed b8 h8.
                      Spells-bind (take_len 44) _ _ _ (take_len-Spells 44) λ added_len b9 h9.
                        Spells-bind (repeat added_len decode_index_delta) _ _ _
                          (Spells-repeat decode_index_delta index_layout _ decode_index_delta-Spells
                            added_len)
                          λ added b10 h10.
                            Spells-bind decode_rows _ _ _ decode_rows-Spells λ rows b11 h11.
                              Spells-pure _ _ (
                                rw (
                                  h1.0,
                                  h2.0,
                                  h3.0,
                                  h4.0,
                                  h5.0,
                                  ← h6.2,
                                  h6.0,
                                  h7.0,
                                  ← h8.2,
                                  h8.0,
                                  h9.0,
                                  ← h10.2,
                                  h10.0,
                                  h11.0,
                                  append-nil (rows_layout rows),
                                ),
                                (
                                  record {
                                    height_u32 = h3.1;
                                    block_hash_32 = h1.1;
                                    num_leaves_u64 = h2.1;
                                    previous_32 = h4.1;
                                    forest_typed = h6.1;
                                    removed_typed = h8.1;
                                    added_typed = h10.1;
                                  },
                                  record {
                                    forest_fits = omega (arith, h5.1, h6.2);
                                    removed_fits = omega (arith, h7.1, h8.2);
                                    added_fits = omega (arith, h9.1, h10.2);
                                    rows_fit = h11.1;
                                  },
                                ),
                              )

decode_entry_reader-Drains : Drains decode_entry_reader
unfolding decode_entry_reader
decode_entry_reader-Drains = Drains-bind (take_array 32) _ λ _. Drains-bind take_u64 _ λ _.
    Drains-bind take_u32 _ λ _. Drains-bind (take_array 32) _ λ _. Drains-bind (take_len 74) _ λ n.
      Drains-bind (repeat n decode_forest_delta) _ λ _. Drains-bind (take_len 44) _ λ n.
        Drains-bind (repeat n decode_index_delta) _ λ _. Drains-bind (take_len 44) _ λ n.
          Drains-bind (repeat n decode_index_delta) _ λ _. λ r rest e h.
            let (rows, r', k, l) = bind-eq-ok decode_rows _ r rest e h in
            ground (arith, (decode_rows-eq-ok r r' rows k).1)

value_of-eq-ok :
    {A : Type 0} (q : Result EntryError (A × List ℕ)) (a : A)
    → value_of q ≡ ok a
    → (rest : List ℕ) × (q ≡ ok (a, rest))
value_of-eq-ok (ok (x, rest)) a h = (rest, ground arith)
value_of-eq-ok (err e) a h = cc

-- Whatever bytes `decode_entry` accepts, the entry it returns is well typed and within the limits of
-- the encoder, and encoding it gives exactly those bytes: no two byte strings decode to one entry.
pub encode_entry-decode_entry :
    (bytes : List ℕ) (e : JournalEntry)
    → All IsByte bytes
    → decode_entry bytes ≡ ok e
    → IsTyped e × Fits e × (encode_entry e ≡ ok bytes)
unfolding decode_entry encode_entry
encode_entry-decode_entry bytes e hb h =
    let (rest, k) = value_of-eq-ok (decode_entry_reader bytes) e h in
    let (bs, split, _, (spelled, (typed, fits))) = decode_entry_reader-Spells bytes rest e hb k in
    (
      typed,
      fits,
      encode_entry_into-layout e [] fits
          ∙ ap ok (
              sym spelled
              ∙ sym (append-nil bs)
              ∙ ap (◌++◌ bs) (sym (decode_entry_reader-Drains bytes rest e k))
              ∙ sym split),
    )
