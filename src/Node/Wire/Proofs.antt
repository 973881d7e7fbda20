-- ===== src/Node/Wire/Proofs.antt =====
-- src/node.rs: a proof response is read back from its encoding.
use rpc_utreexo_bridge.Base.{ℕ, ◌+◌, ◌*◌, ◌≤◌, List, length, All}
use rpc_utreexo_bridge.Bytes.{IsBytes}
use rpc_utreexo_bridge.Consensus.{IsU64, max_vec_size}
use rpc_utreexo_bridge.Udata.Types.{IsTypedLeaf}
use rpc_utreexo_bridge.Node.Wire.Messages.{UtreexoProof, max_utreexo_leaves}

-- Vectors whose encoding is within the limit of the decoder of `Vec`: 32 bytes for each hash, and at
-- most 9 for each target and for the count.
abbrev pub IsHashes : List (List ℕ) → Type 0
IsHashes hashes = All (IsBytes 32) hashes × (length hashes * 32 + 9 ≤ max_vec_size)

abbrev pub IsTargets : List ℕ → Type 0
IsTargets targets = All IsU64 targets × (length targets * 9 + 9 ≤ max_vec_size)

-- The ranges of the fields, and as many leaves as the decoder accepts.
pub record IsResponse (m : UtreexoProof) : Type 0 where
  pub hash_32 : IsBytes 32 m.block_hash
  pub hashes_32 : IsHashes m.proof_hashes
  pub targets_u64 : IsTargets m.target_locations
  pub leaves_typed : All IsTypedLeaf m.leaf_data
  pub leaves_few : length m.leaf_data ≤ max_utreexo_leaves
