-- ===== src/Examples/Stores.antt =====
-- src/block_index.rs, src/blockfile.rs and src/udata.rs: a proof is encoded, stored and read back.
use rpc_utreexo_bridge.Base.{
  checked_add, ℕ, ◌+◌, ◌≡◌, ◌≤◌, refl, true, some, none, Option, List, [], ◌∷◌, ◌++◌, replicate,
  length, length-replicate, ok, err, Result, arith, ap, sym, append-nil, ◌∙◌,
}
use rpc_utreexo_bridge.Bytes.{replicate-IsByte, to_le_bytes}
use rpc_utreexo_bridge.File.{done, empty_file, write_all_at}
use rpc_utreexo_bridge.Reader.{Reads}
use rpc_utreexo_bridge.Consensus.{ConsensusError}
use rpc_utreexo_bridge.Udata.Types.{
  CompactBlockProof, CompactLeafData, other, script_hash, IsServable, IsTypedLeaf,
}
use rpc_utreexo_bridge.Udata.Codec.{
  encode_compact_proof, decode_compact_proof, encode_leaf, decode_leaf, encode_script_type,
  decode_script_type, each,
}
use rpc_utreexo_bridge.Udata.RoundTrip.{
  decode_compact_proof-encode, decode_leaf-encode, decode_script_type-encode,
}
use rpc_utreexo_bridge.Store.Index.{
  BlockIndex, to_raw_value, from_raw_value, from_raw_value-to_raw_value,
}
use rpc_utreexo_bridge.Store.Proofs.{
  ProofFile, open_file, append, append_bytes, contains, get_proof, truncate_after,
}
use rpc_utreexo_bridge.Store.Laws.{get_proof-append, get_proof-append_other}
use rpc_utreexo_bridge.Store.Truncate.{get_proof-truncate_after}
use rpc_utreexo_bridge.Examples.Toy.{toy, toy-Laws, number_codec, hash_codec, script_bytes_codec}

abbrev index : BlockIndex
index = record { offset = 300; size = 24; proof_forest_rows = some 31 }

index_raw : (raw : List ℕ) × (to_raw_value index ≡ ok raw)
unfolding to_raw_value
index_raw = (_, refl)

from_raw_value-to_raw_value_example : from_raw_value index_raw.0 ≡ ok index
from_raw_value-to_raw_value_example =
    from_raw_value-to_raw_value index (omega arith, omega arith) index_raw.1

abbrev leaf : CompactLeafData
leaf = record { header_code = 21; amount = 5000; spk_ty = other (0x51 ∷ 0x52 ∷ []) }

leaf-IsTypedLeaf : IsTypedLeaf leaf
leaf-IsTypedLeaf = (omega arith, omega arith, ((omega arith, (omega arith, tt)), omega arith))

decode_leaf-encode_example :
    ((encode_leaf toy leaf).len ≡ length (encode_leaf toy leaf).bytes)
    × (decode_leaf toy ((encode_leaf toy leaf).bytes ++ (7 ∷ [])) ≡ ok (leaf, 7 ∷ []))
decode_leaf-encode_example = decode_leaf-encode toy toy-Laws leaf (7 ∷ []) leaf-IsTypedLeaf

decode_script_type-encode_example :
    ((encode_script_type toy script_hash).len ≡ length (encode_script_type toy script_hash).bytes)
    × (decode_script_type toy ((encode_script_type toy script_hash).bytes ++ [])
        ≡ ok (script_hash, []))
decode_script_type-encode_example = decode_script_type-encode toy toy-Laws script_hash [] tt

abbrev pub block : CompactBlockProof
block = record {
  proof = record { targets = 3 ∷ 9 ∷ []; hashes = replicate 32 6 ∷ [] };
  leaves = leaf ∷ [];
}

pub block-IsServable : IsServable block
block-IsServable = record {
  targets_typed = (omega arith, (omega arith, tt));
  hashes_typed = ((length-replicate {A = ℕ} 32 6, replicate-IsByte 32 6 (omega arith)), tt);
  leaves_typed = (leaf-IsTypedLeaf, tt);
  targets_few = omega arith;
  hashes_few = omega arith;
  leaves_few = omega arith;
}

decode_compact_proof-encode_example :
    ((encode_compact_proof toy block).len ≡ length (encode_compact_proof toy block).bytes)
    × (decode_compact_proof toy ((encode_compact_proof toy block).bytes ++ []) ≡ ok (block, []))
decode_compact_proof-encode_example =
    decode_compact_proof-encode toy toy-Laws block [] block-IsServable

-- `deserialize`: the value, when the decoder reads the whole input.
unfoldable whole : Result ConsensusError (CompactBlockProof × List ℕ) → Option CompactBlockProof
whole (ok (p, [])) = some p
whole (ok (p, _ ∷ _)) = none
whole (err e) = none

unfoldable deserialize : List ℕ → Option CompactBlockProof
deserialize bytes = whole (decode_compact_proof toy bytes)

deserialize_whole :
    (bytes : List ℕ) (p : CompactBlockProof)
    → Reads (decode_compact_proof toy) bytes p
    → deserialize bytes ≡ some p
unfolding deserialize whole
deserialize_whole bytes p h =
    ap (λ bs. whole (decode_compact_proof toy bs)) (sym (append-nil bytes)) ∙ ap whole (h.at [])

abbrev bytes_of_block : CompactBlockProof → List ℕ
bytes_of_block p = (encode_compact_proof toy p).bytes

abbrev empty_store : ProofFile
empty_store = open_file empty_file

empty_store-pos : empty_store.writer_pos ≤ empty_store.file.len
unfolding open_file
empty_store-pos = omega arith

-- The first proof has 91 bytes and goes to the start of the file.
abbrev first_index : BlockIndex
first_index = record { offset = 0; size = 91; proof_forest_rows = none }

abbrev one_proof : ProofFile
one_proof = (append bytes_of_block deserialize done empty_store block).0

append_first :
    append bytes_of_block deserialize done empty_store block ≡ (one_proof, ok first_index)
unfolding append append_bytes checked_add open_file encode_compact_proof each encode_leaf
    encode_script_type toy number_codec hash_codec script_bytes_codec to_le_bytes
append_first = refl

get_proof-append_example : get_proof bytes_of_block deserialize one_proof first_index ≡ some block
get_proof-append_example =
    get_proof-append toy toy-Laws deserialize deserialize_whole empty_store one_proof block
      first_index block-IsServable empty_store-pos append_first

abbrev small_block : CompactBlockProof
small_block = record { proof = record { targets = []; hashes = [] }; leaves = [] }

abbrev second_index : BlockIndex
second_index = record { offset = 91; size = 24; proof_forest_rows = none }

abbrev two_proofs : ProofFile
two_proofs = (append bytes_of_block deserialize done one_proof small_block).0

append_second :
    append bytes_of_block deserialize done one_proof small_block ≡ (two_proofs, ok second_index)
unfolding append append_bytes checked_add open_file encode_compact_proof each encode_leaf
    encode_script_type toy number_codec hash_codec script_bytes_codec to_le_bytes
append_second = refl

one_proof-contains : contains one_proof first_index ≡ true
unfolding append append_bytes checked_add open_file encode_compact_proof each encode_leaf
    encode_script_type toy number_codec hash_codec script_bytes_codec to_le_bytes contains
    write_all_at
one_proof-contains = refl

one_proof-pos : 0 + 91 ≤ one_proof.writer_pos
unfolding append append_bytes checked_add open_file encode_compact_proof each encode_leaf
    encode_script_type toy number_codec hash_codec script_bytes_codec to_le_bytes
one_proof-pos = omega arith

get_proof-append_other_example :
    get_proof bytes_of_block deserialize two_proofs first_index
    ≡ get_proof bytes_of_block deserialize one_proof first_index
get_proof-append_other_example =
    get_proof-append_other toy toy-Laws deserialize deserialize_whole one_proof two_proofs
      small_block second_index first_index append_second one_proof-contains one_proof-pos

abbrev cut_back : ProofFile
cut_back = (truncate_after true done true two_proofs (some first_index)).0

truncate_second : truncate_after true done true two_proofs (some first_index) ≡ (cut_back, ok tt)
unfolding append append_bytes checked_add open_file encode_compact_proof each encode_leaf
    encode_script_type toy number_codec hash_codec script_bytes_codec to_le_bytes truncate_after
    write_all_at
truncate_second = refl

two_proofs-contains : contains two_proofs first_index ≡ true
unfolding append append_bytes checked_add open_file encode_compact_proof each encode_leaf
    encode_script_type toy number_codec hash_codec script_bytes_codec to_le_bytes contains
    write_all_at
two_proofs-contains = refl

get_proof-truncate_after_example :
    (cut_back.file.len ≡ 0 + 91)
    × (cut_back.writer_pos ≡ 0 + 91)
    × (get_proof bytes_of_block deserialize cut_back first_index
        ≡ get_proof bytes_of_block deserialize two_proofs first_index)
get_proof-truncate_after_example =
    get_proof-truncate_after bytes_of_block deserialize true done true two_proofs cut_back
      first_index first_index truncate_second two_proofs-contains (omega arith)
