-- ===== src/Examples/Wires.antt =====
-- src/node.rs: requests and responses over the example encoding.
use rpc_utreexo_bridge.Base.{
  ℕ, ◌+◌, ◌≡◌, refl, List, [], ◌∷◌, ◌++◌, length, length-replicate, replicate, ok, err, arith,
}
use rpc_utreexo_bridge.Bytes.{replicate-IsByte}
use rpc_utreexo_bridge.Reader.{repeat, ◌>>=◌, concat_map}
use rpc_utreexo_bridge.Consensus.{Codec}
use rpc_utreexo_bridge.Udata.RoundTrip.{bytes_of}
use rpc_utreexo_bridge.Udata.Types.{script_hash}
use rpc_utreexo_bridge.Node.Wire.Messages.{GetUtreexoProof, UtreexoProof, WireConsensus}
use rpc_utreexo_bridge.Node.Wire.Decode.{
  get_utreexo_proof, decode, encode_request, trailing_payload,
}
use rpc_utreexo_bridge.Node.Wire.Limits.{IsWithinLimits, decode-IsWithinLimits}
use rpc_utreexo_bridge.Node.Wire.RoundTrip.{IsRequest, decode-encode_request}
use rpc_utreexo_bridge.Examples.Toy.{toy, toy-Laws, number_codec, hash_codec}

-- A vector: its length in 8 bytes, and its items.
unfoldable vec_codec : {A : Type 0} → Codec A → Codec (List A)
vec_codec d = record {
  encode = λ xs. record {
    bytes = bytes_of (number_codec 8) (length xs) ++ concat_map (bytes_of d) xs;
    len = length (bytes_of (number_codec 8) (length xs) ++ concat_map (bytes_of d) xs);
  };
  decode = (number_codec 8).decode >>= λ n. repeat n d.decode;
}

unfoldable wire : WireConsensus ℕ ℕ
wire = record {
  byte_vec =
      λ bs. record { bytes = bytes_of (number_codec 8) (length bs) ++ bs; len = 8 + length bs };
  hash_vec = vec_codec hash_codec;
  varint_vec = vec_codec (number_codec 8);
  inventory = hash_codec.decode;
  version = (number_codec 8).decode;
  get_cfilters = (number_codec 8).decode;
  command = hash_codec.decode;
}

wire-prefixed :
    (bs : List ℕ) → (wire.byte_vec bs).bytes ≡ (toy.varint_codec.encode (length bs)).bytes ++ bs
unfolding wire toy
wire-prefixed bs = refl

abbrev agent_len : ℕ → ℕ
agent_len v = v

abbrev request : GetUtreexoProof
request = record {
  block_hash = replicate 32 8;
  request_mask = 5;
  proof_bitmap = 3 ∷ 1 ∷ [];
  leaf_bitmap = [];
}

request-IsRequest : IsRequest request
request-IsRequest = record {
  hash_32 = (length-replicate {A = ℕ} 32 8, replicate-IsByte 32 8 (omega arith));
  mask_u8 = omega arith;
  proof_small = omega arith;
  leaf_small = omega arith;
}

decode-encode_request_example :
    (decode toy wire agent_len (encode_request toy wire agent_len request)
      ≡ ok (get_utreexo_proof request))
    × (decode toy wire agent_len (encode_request toy wire agent_len request ++ (9 ∷ 9 ∷ []))
        ≡ err (trailing_payload 2))
decode-encode_request_example =
    decode-encode_request toy toy-Laws wire wire-prefixed agent_len request 9 (9 ∷ [])
      request-IsRequest

request-decoded :
    decode toy wire agent_len (encode_request toy wire agent_len request)
    ≡ ok (get_utreexo_proof request)
request-decoded =
    (decode-encode_request toy toy-Laws wire wire-prefixed agent_len request 9 []
      request-IsRequest).0

decode-IsWithinLimits_example : IsWithinLimits toy wire agent_len (get_utreexo_proof request)
decode-IsWithinLimits_example =
    decode-IsWithinLimits toy wire agent_len (encode_request toy wire agent_len request)
      (get_utreexo_proof request) request-decoded

abbrev response : UtreexoProof
response = record {
  block_hash = replicate 32 8;
  proof_hashes = replicate 32 4 ∷ [];
  target_locations = 2 ∷ 70000 ∷ [];
  leaf_data = record { header_code = 21; amount = 5000; spk_ty = script_hash } ∷ [];
}
