-- ===== src/Store/Truncate.antt =====
-- src/blockfile.rs: `ProofFile::truncate_after`, which a recovery calls with the last published index.
use rpc_utreexo_bridge.Base.{
  checked_add, ℕ, ◌+◌, ◌^◌, ◌≤◌, ◌≡◌, refl, Bool, true, false, Option, some, List, ltb, ok,
  Bool-cases, inl, inr, arith,
}
use rpc_utreexo_bridge.File.{Outcome, done, failed, set_len, read-set_len}
use rpc_utreexo_bridge.Udata.Types.{CompactBlockProof}
use rpc_utreexo_bridge.Store.Index.{BlockIndex}
use rpc_utreexo_bridge.Store.Proofs.{ProofFile, contains, truncate_after, cut, get_proof}
use rpc_utreexo_bridge.Store.Laws.{contains_facts, contains_of}

cut_facts :
    (outcome : Outcome) (synced : Bool) (f g : ProofFile) (end : ℕ)
    → end ≤ f.file.len
    → cut outcome synced f end ≡ (g, ok tt)
    → (g.file ≡ set_len f.file end) × (g.writer_pos ≡ end) × (end ≤ f.file.len)
cut_facts (failed left) synced f g end h e = cc
cut_facts done true f g end h e = (cc e, cc e, h)
cut_facts done false f g end h e = cc

truncate_facts :
    (stated : Bool) (outcome : Outcome) (synced : Bool) (f g : ProofFile) (last : BlockIndex)
    → truncate_after stated outcome synced f (some last) ≡ (g, ok tt)
    → (g.file ≡ set_len f.file (last.offset + last.size))
      × (g.writer_pos ≡ last.offset + last.size)
      × (last.offset + last.size ≤ f.file.len)
unfolding truncate_after checked_add
truncate_facts true outcome synced f g last e =
    elim (Bool-cases (ltb (last.offset + last.size) (2 ^ 64))) [
      | inr full ↦ cc (rw full at e)
      | inl room ↦ elim (Bool-cases (ltb f.file.len (last.offset + last.size))) [
        | inl short ↦ cc (rw (room, short) at e)
        | inr long ↦
            cut_facts outcome synced f g (last.offset + last.size) (ground (arith, long))
              (rw (room, long) at e)
      ]
    ]
truncate_facts false outcome synced f g last e =
    elim (Bool-cases (ltb (last.offset + last.size) (2 ^ 64))) [
      | inr full ↦ cc (rw full at e)
      | inl room ↦ cc (rw room at e)
    ]

-- After a truncation that succeeds the file ends where the index ends, the next append goes there,
-- and every stored proof up to there is read as before.
pub get_proof-truncate_after :
    (serialize : CompactBlockProof → List ℕ) (deserialize : List ℕ → Option CompactBlockProof)
    (stated : Bool) (outcome : Outcome) (synced : Bool) (f g : ProofFile) (last other : BlockIndex)
    → truncate_after stated outcome synced f (some last) ≡ (g, ok tt)
    → contains f other ≡ true
    → other.offset + other.size ≤ last.offset + last.size
    → (g.file.len ≡ last.offset + last.size)
      × (g.writer_pos ≡ last.offset + last.size)
      × (get_proof serialize deserialize g other ≡ get_proof serialize deserialize f other)
unfolding get_proof set_len
get_proof-truncate_after serialize deserialize stated outcome synced f g last other e there below =
    let (file, pos, long) = truncate_facts stated outcome synced f g last e in
    let (a, b, d) = contains_facts f other there in
    let len : g.file.len ≡ last.offset + last.size = rw file refl in
    (
      len,
      pos,
      rw
          (
            contains_of g other a b (omega arith),
            there,
            file,
            read-set_len f.file (last.offset + last.size) other.offset other.size d below,
          )
          refl,
    )
