-- ===== src/Store/Laws.antt =====
-- src/blockfile.rs: what `ProofFile` keeps and gives back.
use rpc_utreexo_bridge.Base.{
  checked_add, ℕ, ◌+◌, ◌^◌, ◌≤◌, ◌<◌, ◌≡◌, refl, true, Option, some, List, length, ltb, ok,
  Bool-cases, inl, inr, arith,
}
use rpc_utreexo_bridge.File.{
  done, read_exact_at, write_all_at, read-write_self, read-write-Apart, len-write_all_at,
}
use rpc_utreexo_bridge.Consensus.{BitcoinConsensus, Laws}
use rpc_utreexo_bridge.Reader.{Reads}
use rpc_utreexo_bridge.Udata.Types.{CompactBlockProof, IsServable, max_compact_proof_bytes}
use rpc_utreexo_bridge.Udata.Codec.{encode_compact_proof, decode_compact_proof}
use rpc_utreexo_bridge.Udata.RoundTrip.{proof_codec-IsLawful}
use rpc_utreexo_bridge.Store.Index.{BlockIndex}
use rpc_utreexo_bridge.Store.Proofs.{ProofFile, append_bytes, contains, append, get_proof}

-- The facts behind `contains`.
pub contains_facts :
    (f : ProofFile) (index : BlockIndex)
    → contains f index ≡ true
    → (index.size ≤ max_compact_proof_bytes)
      × (index.offset + index.size < 2 ^ 64)
      × (index.offset + index.size ≤ f.file.len)
unfolding contains checked_add
contains_facts f index h = ground arith

pub contains_of :
    (f : ProofFile) (index : BlockIndex)
    → index.size ≤ max_compact_proof_bytes
    → index.offset + index.size < 2 ^ 64
    → index.offset + index.size ≤ f.file.len
    → contains f index ≡ true
unfolding contains checked_add
contains_of f index a b d = ground arith

-- The facts behind a successful append.
append_facts :
    (f g : ProofFile) (buffer : List ℕ) (index : BlockIndex)
    → append_bytes done f buffer ≡ (g, ok index)
    → (g.file ≡ write_all_at f.file f.writer_pos buffer)
      × (g.writer_pos ≡ f.writer_pos + length buffer)
      × (index.offset ≡ f.writer_pos)
      × (index.size ≡ length buffer)
      × (length buffer ≤ max_compact_proof_bytes)
      × (f.writer_pos + length buffer < 2 ^ 64)
unfolding append_bytes checked_add
append_facts f g buffer index e = elim (Bool-cases (ltb max_compact_proof_bytes (length buffer))) [
  | inl big ↦ cc (rw big at e)
  | inr fits ↦ elim (Bool-cases (ltb (f.writer_pos + length buffer) (2 ^ 64))) [
    | inl room ↦
        let q = rw (fits, room) at e in
        (cc q, cc q, cc q, cc q, ground (arith, fits), ground (arith, room))
    | inr full ↦ cc (rw (fits, full) at e)
  ]
]

-- A write at a position that the file has reaches the end of what it writes.
write_reaches :
    (f : ProofFile) (buffer : List ℕ)
    → f.writer_pos ≤ f.file.len
    → f.writer_pos + length buffer ≤ (write_all_at f.file f.writer_pos buffer).len
write_reaches f buffer pos =
    let (old, new) = len-write_all_at f.file f.writer_pos buffer in ground (arith, old, new)

-- An append that succeeds on a file that holds at least `writer_pos` bytes leaves one that holds at
-- least its `writer_pos` bytes, and its index is authorised.
append_contains :
    (f g : ProofFile) (buffer : List ℕ) (index : BlockIndex)
    → f.writer_pos ≤ f.file.len
    → append_bytes done f buffer ≡ (g, ok index)
    → (contains g index ≡ true) × (g.writer_pos ≤ g.file.len)
append_contains f g buffer index pos e =
    let (file, end, off, size, small, room) = append_facts f g buffer index e in
    let (old, new) = len-write_all_at f.file f.writer_pos buffer in
    let inside : f.writer_pos + length buffer ≤ g.file.len = rw file (write_reaches f buffer pos) in
    (contains_of g index (omega arith) (omega arith) (omega arith), omega arith)

-- An append leaves every index below the writer position as it was.
pub append_keeps :
    (f g : ProofFile) (buffer : List ℕ) (index other : BlockIndex)
    → append_bytes done f buffer ≡ (g, ok index)
    → contains f other ≡ true
    → other.offset + other.size ≤ f.writer_pos
    → (contains g other ≡ true)
      × (read_exact_at g.file other.offset other.size
          ≡ read_exact_at f.file other.offset other.size)
append_keeps f g buffer index other e there below =
    let (file, end, off, size, small, room) = append_facts f g buffer index e in
    let (a, b, d) = contains_facts f other there in
    let longer : f.file.len ≤ g.file.len =
      rw file (len-write_all_at f.file f.writer_pos buffer).0 in
    (
      contains_of g other a b (omega arith),
      rw file (read-write-Apart f.file other.offset other.size f.writer_pos buffer (inl below) d),
    )

module _ (c : BitcoinConsensus) (laws : Laws c) (deserialize : List ℕ → Option CompactBlockProof)
    (deserialize_whole : (bytes : List ℕ) (p : CompactBlockProof)
      → Reads (decode_compact_proof c) bytes p
      → deserialize bytes ≡ some p) where
  abbrev serialize : CompactBlockProof → List ℕ
  serialize p = (encode_compact_proof c p).bytes

  -- A proof file that has at least `writer_pos` bytes, and a proof within the decoder's limits, whose
  -- scripts encode within 4,000,000 bytes each: when it was appended, its index gives it back.
  -- `deserialize` is assumed to return what the decoder reads when it reads the whole input.
  pub get_proof-append :
      (f g : ProofFile) (p : CompactBlockProof) (index : BlockIndex)
      → IsServable p
      → f.writer_pos ≤ f.file.len
      → append serialize deserialize done f p ≡ (g, ok index)
      → get_proof serialize deserialize g index ≡ some p
  unfolding append get_proof
  get_proof-append f g p index servable pos e =
      let (file, end, off, size, small, room) = append_facts f g (serialize p) index e in
      rw
        (
          (append_contains f g (serialize p) index pos e).0,
          file,
          off,
          size,
          read-write_self f.file f.writer_pos (serialize p),
        )
        (deserialize_whole (serialize p) p ((proof_codec-IsLawful c laws).reads p servable))

  -- An append changes no proof that is stored below the writer position.
  pub get_proof-append_other :
      (f g : ProofFile) (p : CompactBlockProof) (index other : BlockIndex)
      → append serialize deserialize done f p ≡ (g, ok index)
      → contains f other ≡ true
      → other.offset + other.size ≤ f.writer_pos
      → get_proof serialize deserialize g other ≡ get_proof serialize deserialize f other
  unfolding append get_proof
  get_proof-append_other f g p index other e there below =
      let (kept, same) = append_keeps f g (serialize p) index other e there below in
      rw (kept, there, same) refl
