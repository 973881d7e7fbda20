-- ===== src/Node/Wire/RoundTrip.antt =====
-- src/node.rs: a proof request passes `V2Codec` unchanged, and nothing may follow it.
use rpc_utreexo_bridge.Base.{
  ℕ, suc, ◌≤◌, ◌≡◌, refl, sym, ap, ◌∙◌, subst, true, List, [], ◌∷◌, ◌++◌, append-nil, append_assoc,
  length, length-append, take-append, drop-append, leb, ok, err, arith,
}
use rpc_utreexo_bridge.Bytes.{IsBytes}
use rpc_utreexo_bridge.Reader.{Reads, Reads-bind, Reads-bind_pure}
use rpc_utreexo_bridge.Consensus.{BitcoinConsensus, Laws, IsU8}
use rpc_utreexo_bridge.Node.Wire.Messages.{
  GetUtreexoProof, WireConsensus, max_proof_bitmap_bytes, read_exact, bounded, decode_bitmap,
  decode_get_utreexo_proof, encode_get_utreexo_proof,
}
use rpc_utreexo_bridge.Node.Wire.Decode.{
  get_utreexo_proof, trailing_payload, ensure_empty, decode_exact, decode, encode_request,
}

-- The ranges of the fields, and bitmaps within the limit.
pub record IsRequest (m : GetUtreexoProof) : Type 0 where
  pub hash_32 : IsBytes 32 m.block_hash
  pub mask_u8 : IsU8 m.request_mask
  pub proof_small : length m.proof_bitmap ≤ max_proof_bitmap_bytes
  pub leaf_small : length m.leaf_bitmap ≤ max_proof_bitmap_bytes

read_exact-Reads : (bs : List ℕ) → Reads (read_exact (length bs)) bs bs
unfolding read_exact
read_exact-Reads bs = record {
  at = λ rest.
      let fits : leb (length bs) (length (bs ++ rest)) ≡ true =
        ground (arith, length-append bs rest) in
      rw (fits, take-append bs rest, drop-append bs rest) refl;
}

pub bounded-Reads : (top n : ℕ) → n ≤ top → Reads (bounded top n) [] n
unfolding bounded
bounded-Reads top n h = record { at = λ rest. ground arith }

module _ (c : BitcoinConsensus) (laws : Laws c) {V : Type 0} {F : Type 0} (w : WireConsensus V F)
    (byte_vec_prefixed : (bs : List ℕ)
      → (w.byte_vec bs).bytes ≡ (c.varint_codec.encode (length bs)).bytes ++ bs)
    (user_agent_len : V → ℕ) where
  decode_bitmap-Reads :
      (bs : List ℕ)
      → length bs ≤ max_proof_bitmap_bytes
      → Reads (decode_bitmap c w) (w.byte_vec bs).bytes bs
  unfolding decode_bitmap
  decode_bitmap-Reads bs small =
      subst (λ (l : List ℕ). Reads (decode_bitmap c w) l bs) (sym (byte_vec_prefixed bs))
        (Reads-bind c.varint_codec.decode _ (laws.varint_lawful.reads (length bs) (omega arith)) (
          Reads-bind (bounded max_proof_bitmap_bytes (length bs)) _
            (bounded-Reads max_proof_bitmap_bytes (length bs) small) (read_exact-Reads bs)))

  request-Reads :
      (m : GetUtreexoProof)
      → IsRequest m
      → Reads (decode_get_utreexo_proof c w) (encode_get_utreexo_proof c w m).bytes m
  unfolding decode_get_utreexo_proof encode_get_utreexo_proof
  request-Reads m h =
      let hash = (c.block_hash_codec.encode m.block_hash).bytes in
      let mask = (c.u8_codec.encode m.request_mask).bytes in
      let proof = (w.byte_vec m.proof_bitmap).bytes in
      let leaf = (w.byte_vec m.leaf_bitmap).bytes in
      let layout : hash ++ (mask ++ (proof ++ leaf)) ≡ ((hash ++ mask) ++ proof) ++ leaf =
        simp append_assoc in
      subst (λ (l : List ℕ). Reads (decode_get_utreexo_proof c w) l m) layout
        (Reads-bind c.block_hash_codec.decode _
          (laws.block_hash_lawful.reads m.block_hash h.hash_32)
          (Reads-bind c.u8_codec.decode _ (laws.u8_lawful.reads m.request_mask h.mask_u8) (
            Reads-bind (decode_bitmap c w) _ (decode_bitmap-Reads m.proof_bitmap h.proof_small) (
              Reads-bind_pure (decode_bitmap c w) _ (decode_bitmap-Reads m.leaf_bitmap h.leaf_small)
                (record { at = λ rest. refl })))))

  -- A request within the limits is decoded from its encoding. When bytes follow the encoding, the
  -- whole payload is refused, with the number of these bytes.
  pub decode-encode_request :
      (m : GetUtreexoProof) (b : ℕ) (bs : List ℕ)
      → IsRequest m
      → (decode c w user_agent_len (encode_request c w user_agent_len m) ≡ ok (get_utreexo_proof m))
        × (decode c w user_agent_len (encode_request c w user_agent_len m ++ (b ∷ bs))
            ≡ err (trailing_payload (suc (length bs))))
  unfolding decode encode_request decode_exact ensure_empty
  decode-encode_request m b bs h =
      let reads = request-Reads m h in
      let alone =
        ap (decode_get_utreexo_proof c w) (sym (append-nil (encode_get_utreexo_proof c w m).bytes))
        ∙ reads.at [] in
      (rw alone refl, rw (reads.at (b ∷ bs)) refl)
