-- ===== src/Consensus.antt =====
-- The consensus encoding of the `bitcoin` crate, which is not part of this repository: for each
-- type that the bridge encodes, what is written with the length that `consensus_encode` returns,
-- and the reader `consensus_decode`. Its documented behaviour is the law `IsLawful`.
use rpc_utreexo_bridge.Base.{ℕ, ◌+◌, ◌≡◌, List, length, ◌<◌, ◌≤◌, ◌^◌}
use rpc_utreexo_bridge.Bytes.{IsBytes, IsByte}
use rpc_utreexo_bridge.Base.{All}
use rpc_utreexo_bridge.Reader.{Reader, Reads}

-- `bitcoin::consensus::encode::Error`, as far as this repository raises or passes it on.
pub data ConsensusError : Type 0 where
  oversized_vector : ℕ → ℕ → ConsensusError
  parse_failed io_error : ConsensusError

-- What `consensus_encode` wrote, and the length that it returned.
pub record Written : Type 0 where
  pub bytes : List ℕ
  pub len : ℕ

pub record Codec (A : Type 0) : Type 0 where
  pub encode : A → Written
  pub decode : Reader ConsensusError A

-- On the values of the Rust type, the length is that of the bytes, and decoding takes exactly these
-- bytes and returns the value.
pub record IsLawful {A : Type 0} (V : A → Type 0) (c : Codec A) : Type 0 where
  pub counts : (a : A) → V a → (c.encode a).len ≡ length (c.encode a).bytes
  pub reads : (a : A) → V a → Reads c.decode (c.encode a).bytes a

abbrev pub IsU8 : ℕ → Type 0
IsU8 v = v < 256

abbrev pub IsU32 : ℕ → Type 0
IsU32 v = v < 256 ^ 4

abbrev pub IsU64 : ℕ → Type 0
IsU64 v = v < 256 ^ 8

-- `MAX_VEC_SIZE`: the decoders of `Vec` and `Box<[u8]>` read at most this many bytes, the count in
-- front included, which takes at most 9.
abbrev pub max_vec_size : ℕ
max_vec_size = 4_000_000

abbrev pub IsScript : List ℕ → Type 0
IsScript bs = All IsByte bs × (length bs + 9 ≤ max_vec_size)

-- The codecs of the crate that the bridge calls.
pub record BitcoinConsensus : Type 0 where
  pub u8_codec : Codec ℕ
  pub u32_codec : Codec ℕ
  pub u64_codec : Codec ℕ
  pub varint_codec : Codec ℕ
  pub block_hash_codec : Codec (List ℕ)
  pub box_bytes_codec : Codec (List ℕ)

pub record Laws (c : BitcoinConsensus) : Type 0 where
  pub u8_lawful : IsLawful IsU8 c.u8_codec
  pub u8_one : (v : ℕ) → IsU8 v → length (c.u8_codec.encode v).bytes ≡ 1
  pub u32_lawful : IsLawful IsU32 c.u32_codec
  pub u64_lawful : IsLawful IsU64 c.u64_codec
  pub varint_lawful : IsLawful IsU64 c.varint_codec
  pub block_hash_lawful : IsLawful (IsBytes 32) c.block_hash_codec
  pub box_bytes_lawful : IsLawful IsScript c.box_bytes_codec
