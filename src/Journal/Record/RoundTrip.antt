-- ===== src/Journal/Record/RoundTrip.antt =====
-- src/forest_journal.rs: the payload of `append_block` decodes to its entry and replay payload, and
-- a record that was written is read back.
use rpc_utreexo_bridge.Base.{
  ℕ, ◌^◌, ◌≤◌, ◌<◌, ◌≡◌, refl, ap, ◌∙◌, sym, subst, true, not, inl, inr, List, [], ◌∷◌, ◌++◌,
  append_assoc, append-nil, length, length-append, take-append, drop-append, arith, le→leb, ltb, ok,
  Option, some, Bool-cases,
}
use rpc_utreexo_bridge.Bytes.{
  to_le_bytes, from_le_bytes, length-to_le_bytes, from_le_bytes-to_le_bytes,
}
use rpc_utreexo_bridge.Bytes.Segments.{slice, concat, length-concat, slice-concat}
use rpc_utreexo_bridge.Reader.{Reader, Reads, Ends, Ends-bind, bind-ok}
use rpc_utreexo_bridge.Consensus.{BitcoinConsensus, Laws, IsLawful}
use rpc_utreexo_bridge.Udata.Types.{IsServable}
use rpc_utreexo_bridge.Udata.Codec.{encode_compact_proof, decode_compact_proof}
use rpc_utreexo_bridge.Udata.RoundTrip.{proof_codec-IsLawful}
use rpc_utreexo_bridge.Journal.Entry.Types.{JournalEntry, IsTyped, Fits}
use rpc_utreexo_bridge.Journal.Entry.Encode.{encode_entry}
use rpc_utreexo_bridge.Journal.Entry.Decode.{take_u32, take_array, decode_entry}
use rpc_utreexo_bridge.Journal.Entry.Layout.{
  counted, forest_layout, index_layout, rows_layout, layout, encode_entry_into-layout,
}
use rpc_utreexo_bridge.Journal.Entry.RoundTrip.{
  take_u32-Reads, take_array-Reads, decode_entry-layout,
}
use rpc_utreexo_bridge.Journal.Record.Types.{
  BlockHeader, JournalReplayPayload, RecordError, entry_failed, decode_failed,
}
use rpc_utreexo_bridge.Journal.Record.Payload.{
  from, is_none, take_entry, at_end, header_matches, decode_replay, decode_payload, encode_payload,
}
use rpc_utreexo_bridge.Journal.Record.Held.{IsPayload}

from-Reads {ℓ} :
    {E : Type 0} {A : Type ℓ} (wrap : E → RecordError) (m : Reader E A) {bs : List ℕ} {a : A}
    → Reads m bs a
    → Reads (from wrap m) bs a
from-Reads wrap m {bs} {a} h = record { at = λ rest. rw (from, h.at rest) refl }

take_entry-Reads :
    (bytes : List ℕ) (entry : JournalEntry)
    → decode_entry bytes ≡ ok entry
    → Reads (take_entry (length bytes)) bytes entry
unfolding take_entry
take_entry-Reads bytes entry h = record {
  at = λ rest.
      rw
        (
          le→leb (length bytes) (length (bytes ++ rest)) (omega (arith, length-append bytes rest)),
          take-append bytes rest,
          h,
          drop-append bytes rest,
        )
        refl;
}

module _ {H : Type 0} (sha256 : List ℕ → List ℕ) (c : BitcoinConsensus) (laws : Laws c)
    (block : BlockHeader H) (page_size : ℕ) (V : H → Type 0)
    (header_lawful : IsLawful V block.codec) where
  -- What `append_block` checks, and the ranges that the Rust types give.
  pub record IsAppendable (entry : JournalEntry) (replay : JournalReplayPayload H) : Type 0 where
    pub typed : IsTyped entry
    pub fits : Fits entry
    pub rows : ℕ
    pub has_rows : entry.forest_rows ≡ some rows
    pub proof_rows : replay.proof_forest_rows ≤ 63
    pub matches : header_matches c block replay.header entry ≡ true
    pub header_valid : V replay.header
    pub servable : IsServable replay.proof

  module _ (entry : JournalEntry) (replay : JournalReplayPayload H)
      (a : IsAppendable entry replay) where
    abbrev header_bytes : List ℕ
    header_bytes = (block.codec.encode replay.header).bytes

    abbrev proof_bytes : List ℕ
    proof_bytes = (encode_compact_proof c replay.proof).bytes

    abbrev vectors : List ℕ
    vectors = counted forest_layout entry.forest (
        counted index_layout entry.removed
          (counted index_layout entry.added (rows_layout entry.forest_rows)))

    abbrev tail : List ℕ
    tail = header_bytes ++ ((replay.proof_forest_rows ∷ []) ++ proof_bytes)

    abbrev whole_payload : List ℕ
    whole_payload = to_le_bytes 4 (length (layout entry)) ++ (layout entry ++ tail)

    proof-end : decode_compact_proof c proof_bytes ≡ ok (replay.proof, [])
    proof-end =
        ap (decode_compact_proof c) (sym (append-nil proof_bytes))
        ∙ ((proof_codec-IsLawful c laws).reads replay.proof a.servable).at []

    rows-present : not (is_none entry.forest_rows) ≡ true
    rows-present = ap (λ (o : Option ℕ). not (is_none o)) a.has_rows

    encode_entry-layout : encode_entry entry ≡ ok (layout entry)
    unfolding encode_entry
    encode_entry-layout = encode_entry_into-layout entry [] a.fits

    decode_replay-Ends :
        length (layout entry) < 2 ^ 32
        → Ends (decode_replay c block 3) whole_payload (entry, some replay)
    unfolding decode_replay at_end
    decode_replay-Ends short =
        Ends-bind (from entry_failed take_u32) _
          (from-Reads entry_failed take_u32 (take_u32-Reads (length (layout entry)) short))
          (Ends-bind (take_entry (length (layout entry))) _
            (take_entry-Reads (layout entry) entry (decode_entry-layout entry a.typed a.fits))
            (record {
              whole = rw rows-present (
                  (Ends-bind (from decode_failed block.codec.decode) _
                    (from-Reads decode_failed block.codec.decode
                      (header_lawful.reads replay.header a.header_valid))
                    (Ends-bind (from entry_failed (take_array 1)) _
                      (from-Reads entry_failed (take_array 1)
                        (take_array-Reads 1 (replay.proof_forest_rows ∷ []) refl))
                      (record {
                        whole = rw (le→leb replay.proof_forest_rows 63 a.proof_rows) (
                            bind-ok (from decode_failed (decode_compact_proof c)) _ proof_bytes []
                              replay.proof (rw (from, proof-end) refl)
                            ∙ rw a.matches refl);
                      }))).whole);
            }))

    decode_payload-whole :
        length (layout entry) < 2 ^ 32
        → decode_payload c block 3 whole_payload ≡ ok (entry, some replay)
    unfolding decode_payload
    decode_payload-whole short = rw ((decode_replay-Ends short).whole) refl

    -- The payload by its segments.
    spread :
        whole_payload
        ≡ concat (
            to_le_bytes 4 (length (layout entry))
            ∷ entry.block_hash
            ∷ to_le_bytes 8 entry.num_leaves
            ∷ to_le_bytes 4 entry.height
            ∷ (entry.previous_block_hash ++ vectors)
            ∷ tail
            ∷ [])
    spread = simp (append_assoc, append-nil)

    whole_payload-IsPayload :
        length (layout entry) < 2 ^ 32
        → IsPayload sha256 c block page_size 3 whole_payload entry (some replay)
    whole_payload-IsPayload short =
        let four = length-to_le_bytes 4 (length (layout entry)) in
        let eight = length-to_le_bytes 8 entry.num_leaves in
        let high = length-to_le_bytes 4 entry.height in
        let t = a.typed in
        let from_height : List (List ℕ) =
          to_le_bytes 4 entry.height ∷ (entry.previous_block_hash ++ vectors) ∷ tail ∷ [] in
        record {
          known = inr (inr refl);
          decoded = decode_payload-whole short;
          long = omega (
            arith,
            ap length spread,
            length-concat (
                to_le_bytes 4 (length (layout entry))
                ∷ entry.block_hash
                ∷ to_le_bytes 8 entry.num_leaves
                ∷ from_height),
            four,
            eight,
            high,
            t.block_hash_32.0,
          );
          hash_at =
              ap (λ (bs : List ℕ). slice bs 4 32) spread
              ∙ slice-concat (to_le_bytes 4 (length (layout entry)) ∷ []) entry.block_hash
                  (to_le_bytes 8 entry.num_leaves ∷ from_height) 4 32 (omega (arith, four))
                  t.block_hash_32.0;
          height_at =
              ap (λ (bs : List ℕ). from_le_bytes (slice bs 44 4)) spread
              ∙ ap from_le_bytes (
                  slice-concat
                    (to_le_bytes 4 (length (layout entry))
                      ∷ entry.block_hash
                      ∷ to_le_bytes 8 entry.num_leaves
                      ∷ [])
                    (to_le_bytes 4 entry.height)
                    ((entry.previous_block_hash ++ vectors) ∷ tail ∷ []) 44 4
                    (omega (arith, four, eight, t.block_hash_32.0)) high)
              ∙ from_le_bytes-to_le_bytes 4 entry.height t.height_u32;
          hash_32 = t.block_hash_32.0;
          height_u32 = t.height_u32;
        }

    -- A typed entry with forest rows, a header that matches it and a proof within the limits: the payload of `append_block`
    -- is a payload of the current version for them.
    pub encode_payload-IsPayload :
        {payload : List ℕ}
        → encode_payload c block entry replay ≡ ok payload
        → IsPayload sha256 c block page_size 3 payload entry (some replay)
    unfolding encode_payload
    encode_payload-IsPayload {payload} h =
        elim (Bool-cases (ltb (length (layout entry)) (2 ^ 32))) [
          | inr long ↦ cc (rw (encode_payload, encode_entry-layout, long) at h)
          | inl short ↦
              let made : whole_payload ≡ payload =
                cc (rw (encode_payload, encode_entry-layout, short) at h) in
              subst (λ (bs : List ℕ). IsPayload sha256 c block page_size 3 bs entry (some replay))
                made (whole_payload-IsPayload (ground arith))
        ]
