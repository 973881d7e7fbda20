-- ===== src/Udata/Codec.antt =====
-- src/udata.rs: `consensus_encode` and `consensus_decode` of `ScriptPubkeyType` and
-- `CompactBlockProof`. The counters `len` are `usize`; they cannot wrap for what fits in memory.
use rpc_utreexo_bridge.Base.{
  ℕ, ◌+◌, ◌/◌, List, [], ◌∷◌, ◌++◌, ltb, ◌==◌, if◌then◌else◌, length, err,
}
use rpc_utreexo_bridge.Reader.{Reader, pure, ◌>>=◌, repeat}
use rpc_utreexo_bridge.Consensus.{
  ConsensusError, oversized_vector, parse_failed, Written, Codec, BitcoinConsensus,
}
use rpc_utreexo_bridge.Udata.Types.{
  ScriptPubkeyType, other, pub_key_hash, witness_v0_pub_key_hash, script_hash,
  witness_v0_script_hash, CompactLeafData, CompactBlockProof, max_compact_proof_bytes,
}

-- `len += value.consensus_encode(writer)?`
abbrev pub also : Written → Written → Written
also w v = record { bytes = w.bytes ++ v.bytes; len = w.len + v.len }

unfoldable pub each : {A : Type 0} → Codec A → Written → List A → Written
each c w [] = w
each c w (x ∷ xs) = each c (also w (c.encode x)) xs

module _ (c : BitcoinConsensus) where
  -- `len` starts from 1 and the tag's own length is not added.
  unfoldable pub encode_script_type : ScriptPubkeyType → Written
  encode_script_type (other script) = record {
    bytes = (c.u8_codec.encode 0).bytes ++ (c.box_bytes_codec.encode script).bytes;
    len = 1 + (c.box_bytes_codec.encode script).len;
  }
  encode_script_type pub_key_hash = record { bytes = (c.u8_codec.encode 1).bytes; len = 1 }
  encode_script_type witness_v0_pub_key_hash = record {
    bytes = (c.u8_codec.encode 2).bytes;
    len = 1;
  }
  encode_script_type script_hash = record { bytes = (c.u8_codec.encode 3).bytes; len = 1 }
  encode_script_type witness_v0_script_hash = record {
    bytes = (c.u8_codec.encode 4).bytes;
    len = 1;
  }

  unfoldable pub decode_other : Reader ConsensusError ScriptPubkeyType
  decode_other = do script ← c.box_bytes_codec.decode; pure (other script)

  abbrev pub fail : Reader ConsensusError ScriptPubkeyType
  fail r = err parse_failed

  unfoldable pub script_type_of_tag : ℕ → Reader ConsensusError ScriptPubkeyType
  script_type_of_tag ty =
      if ty == 0
      then decode_other
      else if ty == 1
      then pure pub_key_hash
      else if ty == 2
      then pure witness_v0_pub_key_hash
      else if ty == 3
      then pure script_hash
      else if ty == 4
      then pure witness_v0_script_hash
      else fail

  unfoldable pub decode_script_type : Reader ConsensusError ScriptPubkeyType
  decode_script_type = do ty ← c.u8_codec.decode; script_type_of_tag ty

  -- The body of the loop over `self.leaves`.
  unfoldable pub encode_leaf : CompactLeafData → Written
  encode_leaf leaf =
      also (also (c.u32_codec.encode leaf.header_code) (c.u64_codec.encode leaf.amount))
        (encode_script_type leaf.spk_ty)

  unfoldable pub decode_leaf : Reader ConsensusError CompactLeafData
  decode_leaf = do
    header_code ← c.u32_codec.decode
    amount ← c.u64_codec.decode
    spk_ty ← decode_script_type
    pure (record { header_code = header_code; amount = amount; spk_ty = spk_ty })

  abbrev pub leaf_codec : Codec CompactLeafData
  leaf_codec = record { encode = encode_leaf; decode = decode_leaf }

  -- `count > maximum` is refused before anything is allocated.
  unfoldable pub items_within :
      {A : Type 0} → ℕ → Reader ConsensusError A → ℕ → Reader ConsensusError (List A)
  items_within maximum decode count r =
      let items = repeat count decode r in
      if ltb maximum count then err (oversized_vector count maximum) else items

  unfoldable pub decode_items :
      {A : Type 0} → ℕ → Reader ConsensusError A → Reader ConsensusError (List A)
  decode_items minimum_item_bytes decode = do
    count ← c.varint_codec.decode
    items_within (max_compact_proof_bytes / minimum_item_bytes) decode count

  unfoldable pub encode_compact_proof : CompactBlockProof → Written
  encode_compact_proof p =
      let targets =
        each c.varint_codec (c.varint_codec.encode (length p.proof.targets)) p.proof.targets in
      let hashes =
        each c.block_hash_codec (also targets (c.varint_codec.encode (length p.proof.hashes)))
          p.proof.hashes in
      each leaf_codec (also hashes (c.varint_codec.encode (length p.leaves))) p.leaves

  unfoldable pub decode_compact_proof : Reader ConsensusError CompactBlockProof
  decode_compact_proof = do
    targets ← decode_items 1 c.varint_codec.decode
    hashes ← decode_items 32 c.block_hash_codec.decode
    leaves ← decode_items 13 decode_leaf
    pure (record { proof = record { targets = targets; hashes = hashes }; leaves = leaves })
