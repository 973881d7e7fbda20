-- ===== src/Udata/Types.antt =====
-- src/udata.rs: the leaf data of a spent output and the proof of a block. The script predicates
-- `is_p2pkh` and the others belong to the `bitcoin` crate and are parameters.
use Prim.Native.Nat.{bit_or}
use rpc_utreexo_bridge.Base.{
  ℕ, ◌*◌, ◌%◌, ◌^◌, ◌≤◌, ◌/◌, Bool, true, false, List, if◌then◌else◌, length, All,
}
use rpc_utreexo_bridge.Bytes.{IsBytes}
use rpc_utreexo_bridge.Consensus.{IsU32, IsU64, IsScript}

pub data ScriptPubkeyType : Type 0 where
  other : List ℕ → ScriptPubkeyType
  pub_key_hash witness_v0_pub_key_hash script_hash witness_v0_script_hash : ScriptPubkeyType

pub record CompactLeafData : Type 0 where
  pub header_code : ℕ
  pub amount : ℕ
  pub spk_ty : ScriptPubkeyType

pub record LeafContext : Type 0 where
  pub block_hash : List ℕ
  pub txid : List ℕ
  pub vout : ℕ
  pub value : ℕ
  pub pk_script : List ℕ
  pub block_height : ℕ
  pub is_coinbase : Bool

-- The tests on scripts of `bitcoin::Script`.
pub record ScriptTests : Type 0 where
  pub is_p2pkh : List ℕ → Bool
  pub is_p2sh : List ℕ → Bool
  pub is_p2wpkh : List ℕ → Bool
  pub is_p2wsh : List ℕ → Bool

unfoldable pub script_type : ScriptTests → List ℕ → ScriptPubkeyType
script_type t script =
    if t.is_p2pkh script
    then pub_key_hash
    else if t.is_p2sh script
    then script_hash
    else if t.is_p2wpkh script
    then witness_v0_pub_key_hash
    else if t.is_p2wsh script
    then witness_v0_script_hash
    else other script

abbrev pub coinbase_bit : Bool → ℕ
coinbase_bit true = 1
coinbase_bit false = 0

-- `(block_height << 1) | u32::from(is_coinbase)` on a u32: the shift drops the highest bit.
unfoldable pub header_code_of : ℕ → Bool → ℕ
header_code_of height is_coinbase = bit_or (height * 2 % 2 ^ 32) (coinbase_bit is_coinbase)

unfoldable pub compact_of_leaf : ScriptTests → LeafContext → CompactLeafData
unfolding script_type header_code_of
compact_of_leaf t leaf = record {
  header_code = header_code_of leaf.block_height leaf.is_coinbase;
  amount = leaf.value;
  spk_ty = script_type t leaf.pk_script;
}

-- A target is the number in a `VarInt`.
pub record BatchProof : Type 0 where
  pub targets : List ℕ
  pub hashes : List (List ℕ)

pub record CompactBlockProof : Type 0 where
  pub proof : BatchProof
  pub leaves : List CompactLeafData

abbrev pub max_compact_proof_bytes : ℕ
max_compact_proof_bytes = 512 * 1024 * 1024

abbrev pub IsTypedSpk : ScriptPubkeyType → Type 0
IsTypedSpk (other script) = IsScript script
IsTypedSpk pub_key_hash = Unit {0}
IsTypedSpk witness_v0_pub_key_hash = Unit {0}
IsTypedSpk script_hash = Unit {0}
IsTypedSpk witness_v0_script_hash = Unit {0}

abbrev pub IsTypedLeaf : CompactLeafData → Type 0
IsTypedLeaf leaf = IsU32 leaf.header_code × IsU64 leaf.amount × IsTypedSpk leaf.spk_ty

-- The ranges of the fields, and counts that the decoder accepts.
pub record IsServable (p : CompactBlockProof) : Type 0 where
  pub targets_typed : All IsU64 p.proof.targets
  pub hashes_typed : All (IsBytes 32) p.proof.hashes
  pub leaves_typed : All IsTypedLeaf p.leaves
  pub targets_few : length p.proof.targets ≤ max_compact_proof_bytes / 1
  pub hashes_few : length p.proof.hashes ≤ max_compact_proof_bytes / 32
  pub leaves_few : length p.leaves ≤ max_compact_proof_bytes / 13
