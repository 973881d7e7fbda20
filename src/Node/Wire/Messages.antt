-- ===== src/Node/Wire/Messages.antt =====
-- src/node.rs: the messages of `V2Codec` and the encodings that the bridge defines. What the
-- `bitcoin` crate encodes beside `Consensus` is the record `WireConsensus`: the vectors of bytes,
-- hashes and numbers, the inventory entries, and the payloads of type `V` and `F`.
use rpc_utreexo_bridge.Base.{
  ℕ, ◌*◌, ◌/◌, List, length, take, drop, leb, ltb, if◌then◌else◌, ok, err,
}
use rpc_utreexo_bridge.Reader.{Reader, pure, ◌>>=◌, repeat}
use rpc_utreexo_bridge.Consensus.{
  ConsensusError, oversized_vector, io_error, Written, Codec, BitcoinConsensus,
}
use rpc_utreexo_bridge.Udata.Types.{CompactLeafData}
use rpc_utreexo_bridge.Udata.Codec.{also, encode_leaf, decode_leaf, each}

pub record GetUtreexoProof : Type 0 where
  pub block_hash : List ℕ
  pub request_mask : ℕ
  pub proof_bitmap : List ℕ
  pub leaf_bitmap : List ℕ

pub record UtreexoProof : Type 0 where
  pub block_hash : List ℕ
  pub proof_hashes : List (List ℕ)
  pub target_locations : List ℕ
  pub leaf_data : List CompactLeafData

pub record GetHeadersMessage : Type 0 where
  pub version : ℕ
  pub locator_hashes : List (List ℕ)
  pub stop_hash : List ℕ

abbrev pub max_getdata_items : ℕ
max_getdata_items = 1024

abbrev pub max_locator_hashes : ℕ
max_locator_hashes = 101

abbrev pub max_proof_bitmap_bytes : ℕ
max_proof_bitmap_bytes = 64 * 1024

abbrev pub max_user_agent_bytes : ℕ
max_user_agent_bytes = 256

-- `MAX_PACKET_SIZE / MIN_COMPACT_LEAF_BYTES`
abbrev pub max_utreexo_leaves : ℕ
max_utreexo_leaves = 4_000_014 / 13

pub record WireConsensus (V : Type 0) (F : Type 0) : Type 0 where
  pub byte_vec : List ℕ → Written
  pub hash_vec : Codec (List (List ℕ))
  pub varint_vec : Codec (List ℕ)
  pub inventory : Reader ConsensusError (List ℕ)
  pub version : Reader ConsensusError V
  pub get_cfilters : Reader ConsensusError F
  pub command : Reader ConsensusError (List ℕ)

-- `read_exact` on a slice.
unfoldable pub read_exact : ℕ → Reader ConsensusError (List ℕ)
read_exact n r = if leb n (length r) then ok (take n r, drop n r) else err io_error

-- The check on a length in front of the allocation.
unfoldable pub bounded : ℕ → ℕ → Reader ConsensusError ℕ
bounded top n r = if ltb top n then err (oversized_vector n top) else ok (n, r)

module _ (c : BitcoinConsensus) {V : Type 0} {F : Type 0} (w : WireConsensus V F) where
  unfoldable pub encode_get_utreexo_proof : GetUtreexoProof → Written
  encode_get_utreexo_proof m =
      also
        (also (also (c.block_hash_codec.encode m.block_hash) (c.u8_codec.encode m.request_mask))
          (w.byte_vec m.proof_bitmap))
        (w.byte_vec m.leaf_bitmap)

  unfoldable pub decode_bitmap : Reader ConsensusError (List ℕ)
  decode_bitmap = do
    length ← c.varint_codec.decode
    n ← bounded max_proof_bitmap_bytes length
    read_exact n

  unfoldable pub decode_get_utreexo_proof : Reader ConsensusError GetUtreexoProof
  decode_get_utreexo_proof = do
    block_hash ← c.block_hash_codec.decode
    request_mask ← c.u8_codec.decode
    proof_bitmap ← decode_bitmap
    leaf_bitmap ← decode_bitmap
    pure (record {
      block_hash = block_hash;
      request_mask = request_mask;
      proof_bitmap = proof_bitmap;
      leaf_bitmap = leaf_bitmap;
    })

  abbrev pub leaf_wire : Codec CompactLeafData
  leaf_wire = record { encode = encode_leaf c; decode = decode_leaf c }

  -- The leaves are written one field after the other, as in the stored proof.
  unfoldable pub encode_utreexo_proof : UtreexoProof → Written
  encode_utreexo_proof m =
      each leaf_wire
        (also
          (also (also (c.block_hash_codec.encode m.block_hash) (w.hash_vec.encode m.proof_hashes))
            (w.varint_vec.encode m.target_locations))
          (c.varint_codec.encode (length m.leaf_data)))
        m.leaf_data

  unfoldable pub decode_utreexo_proof : Reader ConsensusError UtreexoProof
  decode_utreexo_proof = do
    block_hash ← c.block_hash_codec.decode
    proof_hashes ← w.hash_vec.decode
    target_locations ← w.varint_vec.decode
    leaf_count ← c.varint_codec.decode
    n ← bounded max_utreexo_leaves leaf_count
    leaf_data ← repeat n (decode_leaf c)
    pure (record {
      block_hash = block_hash;
      proof_hashes = proof_hashes;
      target_locations = target_locations;
      leaf_data = leaf_data;
    })
