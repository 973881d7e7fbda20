-- ===== src/Udata/RoundTrip.antt =====
-- src/udata.rs: the encodings return the number of bytes that they write, and decoding reads them
-- back, for every lawful consensus encoding of the parts.
use rpc_utreexo_bridge.Base.{
  ℕ, ◌^◌, ◌/◌, ◌≤◌, ◌<◌, ◌≡◌, refl, ap, ◌∙◌, sym, subst, List, [], ◌∷◌, ◌++◌, append_assoc,
  append-nil, length, length-append, All, ok, arith,
}
use rpc_utreexo_bridge.Reader.{
  Reader, pure, Reads, Reads-bind, Reads-bind_pure, Reads-repeat, concat_map,
}
use rpc_utreexo_bridge.Consensus.{
  ConsensusError, Written, Codec, BitcoinConsensus, IsLawful, Laws, IsU8, IsU64,
}
use rpc_utreexo_bridge.Udata.Types.{
  ScriptPubkeyType, other, pub_key_hash, witness_v0_pub_key_hash, script_hash,
  witness_v0_script_hash, CompactLeafData, CompactBlockProof, IsTypedSpk, IsTypedLeaf, IsServable,
  max_compact_proof_bytes,
}
use rpc_utreexo_bridge.Udata.Codec.{
  also, each, encode_script_type, decode_other, script_type_of_tag, decode_script_type, encode_leaf,
  decode_leaf, leaf_codec, items_within, decode_items, encode_compact_proof, decode_compact_proof,
}

abbrev pub bytes_of : {A : Type 0} → Codec A → A → List ℕ
bytes_of c a = (c.encode a).bytes

-- What the loop over a vector adds to what was written before.
pub bytes-each :
    {A : Type 0} (c : Codec A) (w : Written) (xs : List A)
    → (each c w xs).bytes ≡ w.bytes ++ concat_map (bytes_of c) xs
unfolding each
bytes-each c w [] = sym (append-nil w.bytes)
bytes-each c w (x ∷ xs) = bytes-each c (also w (c.encode x)) xs ∙ append_assoc w.bytes _ _

pub each_counts :
    {A : Type 0} (V : A → Type 0) (c : Codec A) (w : Written) (xs : List A)
    → IsLawful V c
    → All V xs
    → w.len ≡ length w.bytes
    → (each c w xs).len ≡ length (each c w xs).bytes
unfolding each
each_counts V c w [] l h e = e
each_counts V c w (x ∷ xs) l h e =
    each_counts V c (also w (c.encode x)) xs l h.1
      (omega (arith, l.counts x h.0, length-append w.bytes (c.encode x).bytes))

module _ (c : BitcoinConsensus) (laws : Laws c) where
  tag-Reads :
      (tag : ℕ) (s : ScriptPubkeyType)
      → IsU8 tag
      → script_type_of_tag c tag ≡ pure s
      → Reads (decode_script_type c) (bytes_of c.u8_codec tag) s
  unfolding decode_script_type
  tag-Reads tag s h e =
      Reads-bind_pure c.u8_codec.decode (script_type_of_tag c) (laws.u8_lawful.reads tag h)
        (record { at = λ rest. ap (λ (m : Reader ConsensusError ScriptPubkeyType). m rest) e })

  other-Reads :
      (script : List ℕ)
      → IsTypedSpk (other script)
      → Reads (decode_script_type c) (encode_script_type c (other script)).bytes (other script)
  unfolding decode_script_type script_type_of_tag decode_other encode_script_type
  other-Reads script h =
      Reads-bind c.u8_codec.decode (script_type_of_tag c) (laws.u8_lawful.reads 0 (omega arith)) (
        Reads-bind_pure c.box_bytes_codec.decode _ (laws.box_bytes_lawful.reads script h)
          (record { at = λ rest. refl }))

  abbrev script_codec : Codec ScriptPubkeyType
  script_codec = record { encode = encode_script_type c; decode = decode_script_type c }

  script_counts :
      (s : ScriptPubkeyType)
      → IsTypedSpk s
      → (encode_script_type c s).len ≡ length (encode_script_type c s).bytes
  unfolding encode_script_type
  script_counts (other script) h = omega (
    arith,
    laws.u8_one 0 (omega arith),
    laws.box_bytes_lawful.counts script h,
    length-append (bytes_of c.u8_codec 0) (bytes_of c.box_bytes_codec script),
  )
  script_counts pub_key_hash h = sym (laws.u8_one 1 (omega arith))
  script_counts witness_v0_pub_key_hash h = sym (laws.u8_one 2 (omega arith))
  script_counts script_hash h = sym (laws.u8_one 3 (omega arith))
  script_counts witness_v0_script_hash h = sym (laws.u8_one 4 (omega arith))

  script-Reads :
      (s : ScriptPubkeyType)
      → IsTypedSpk s
      → Reads (decode_script_type c) (encode_script_type c s).bytes s
  unfolding encode_script_type script_type_of_tag
  script-Reads (other script) h = other-Reads script h
  script-Reads pub_key_hash h = tag-Reads 1 pub_key_hash (omega arith) refl
  script-Reads witness_v0_pub_key_hash h = tag-Reads 2 witness_v0_pub_key_hash (omega arith) refl
  script-Reads script_hash h = tag-Reads 3 script_hash (omega arith) refl
  script-Reads witness_v0_script_hash h = tag-Reads 4 witness_v0_script_hash (omega arith) refl

  pub script_codec-IsLawful : IsLawful IsTypedSpk script_codec
  script_codec-IsLawful = record { counts = script_counts; reads = script-Reads }

  -- A script type, with a script that encodes within 4,000,000 bytes for `Other`, is written under
  -- its tag, with the bytes of the script for `Other` only, and is read back; the returned length is
  -- that of the bytes.
  pub decode_script_type-encode :
      (s : ScriptPubkeyType) (rest : List ℕ)
      → IsTypedSpk s
      → ((encode_script_type c s).len ≡ length (encode_script_type c s).bytes)
        × (decode_script_type c ((encode_script_type c s).bytes ++ rest) ≡ ok (s, rest))
  decode_script_type-encode s rest h = (script_counts s h, (script-Reads s h).at rest)

  leaf_counts :
      (leaf : CompactLeafData)
      → IsTypedLeaf leaf
      → (encode_leaf c leaf).len ≡ length (encode_leaf c leaf).bytes
  unfolding encode_leaf
  leaf_counts leaf h =
      let header = bytes_of c.u32_codec leaf.header_code in
      let amount = bytes_of c.u64_codec leaf.amount in
      omega (
        arith,
        laws.u32_lawful.counts leaf.header_code h.0,
        laws.u64_lawful.counts leaf.amount h.1,
        script_counts leaf.spk_ty h.2,
        length-append header amount,
        length-append (header ++ amount) (encode_script_type c leaf.spk_ty).bytes,
      )

  leaf-Reads :
      (leaf : CompactLeafData)
      → IsTypedLeaf leaf
      → Reads (decode_leaf c) (encode_leaf c leaf).bytes leaf
  unfolding encode_leaf decode_leaf
  leaf-Reads leaf h =
      subst (λ bs. Reads (decode_leaf c) bs leaf)
        (sym (
          append_assoc (bytes_of c.u32_codec leaf.header_code) (bytes_of c.u64_codec leaf.amount)
            (encode_script_type c leaf.spk_ty).bytes))
        (Reads-bind c.u32_codec.decode _ (laws.u32_lawful.reads leaf.header_code h.0) (
          Reads-bind c.u64_codec.decode _ (laws.u64_lawful.reads leaf.amount h.1) (
            Reads-bind_pure (decode_script_type c) _ (script-Reads leaf.spk_ty h.2)
              (record { at = λ rest. refl }))))

  pub leaf_codec-IsLawful : IsLawful IsTypedLeaf (leaf_codec c)
  leaf_codec-IsLawful = record { counts = leaf_counts; reads = leaf-Reads }

  -- A leaf within the ranges of its fields, whose script, if it has one, encodes within 4,000,000
  -- bytes: encoding returns the number of bytes written, and
  -- decoding takes exactly these bytes, whatever follows them, and returns the leaf.
  pub decode_leaf-encode :
      (leaf : CompactLeafData) (rest : List ℕ)
      → IsTypedLeaf leaf
      → ((encode_leaf c leaf).len ≡ length (encode_leaf c leaf).bytes)
        × (decode_leaf c ((encode_leaf c leaf).bytes ++ rest) ≡ ok (leaf, rest))
  decode_leaf-encode leaf rest h = (leaf_counts leaf h, (leaf-Reads leaf h).at rest)

  pub All-Reads :
      {A : Type 0} (V : A → Type 0) (d : Codec A) (xs : List A)
      → IsLawful V d
      → All V xs
      → All (λ x. Reads d.decode (bytes_of d x) x) xs
  All-Reads V d [] l h = tt
  All-Reads V d (x ∷ xs) l h = (l.reads x h.0, All-Reads V d xs l h.1)

  decode_items-Reads :
      {A : Type 0} (V : A → Type 0) (d : Codec A) (least : ℕ) (xs : List A)
      → IsLawful V d
      → All V xs
      → length xs ≤ max_compact_proof_bytes / least
      → length xs < 256 ^ 8
      → Reads
          (decode_items c least d.decode)
          (bytes_of c.varint_codec (length xs) ++ concat_map (bytes_of d) xs)
          xs
  unfolding decode_items items_within
  decode_items-Reads V d least xs l h few fits =
      Reads-bind c.varint_codec.decode _ (laws.varint_lawful.reads (length xs) fits) (record {
        at = λ rest.
            ground (arith, (Reads-repeat d.decode (bytes_of d) xs (All-Reads V d xs l h)).at rest);
      })

  proof_counts :
      (p : CompactBlockProof)
      → IsServable p
      → (encode_compact_proof c p).len ≡ length (encode_compact_proof c p).bytes
  unfolding encode_compact_proof
  proof_counts p h =
      let count = λ (n : ℕ) (w : Written) (small : n < 256 ^ 8) (e : w.len ≡ length w.bytes).
        let joined : (also w (c.varint_codec.encode n)).len
            ≡ length (also w (c.varint_codec.encode n)).bytes =
          omega (
            arith,
            laws.varint_lawful.counts n small,
            length-append w.bytes (bytes_of c.varint_codec n),
          ) in
        joined in
      each_counts IsTypedLeaf (leaf_codec c) _ p.leaves leaf_codec-IsLawful h.leaves_typed (
        count (length p.leaves) _ (omega (arith, h.leaves_few)) (
          each_counts _ c.block_hash_codec _ p.proof.hashes laws.block_hash_lawful h.hashes_typed (
            count (length p.proof.hashes) _ (omega (arith, h.hashes_few)) (
              each_counts IsU64 c.varint_codec _ p.proof.targets laws.varint_lawful h.targets_typed
                (laws.varint_lawful.counts (length p.proof.targets)
                  (omega (arith, h.targets_few)))))))

  -- The three counted vectors in their order.
  abbrev proof_layout : CompactBlockProof → List ℕ
  proof_layout p =
      (bytes_of c.varint_codec (length p.proof.targets)
        ++ concat_map (bytes_of c.varint_codec) p.proof.targets)
      ++ ((bytes_of c.varint_codec (length p.proof.hashes)
            ++ concat_map (bytes_of c.block_hash_codec) p.proof.hashes)
          ++ (bytes_of c.varint_codec (length p.leaves)
              ++ concat_map (bytes_of (leaf_codec c)) p.leaves))

  proof_bytes : (p : CompactBlockProof) → (encode_compact_proof c p).bytes ≡ proof_layout p
  unfolding encode_compact_proof
  proof_bytes p =
      rw (bytes-each (leaf_codec c), bytes-each c.block_hash_codec, bytes-each c.varint_codec)
        (simp append_assoc)

  proof-Reads :
      (p : CompactBlockProof)
      → IsServable p
      → Reads (decode_compact_proof c) (encode_compact_proof c p).bytes p
  unfolding decode_compact_proof
  proof-Reads p h =
      subst (λ bs. Reads (decode_compact_proof c) bs p) (sym (proof_bytes p))
        (Reads-bind (decode_items c 1 c.varint_codec.decode) _
          (decode_items-Reads IsU64 c.varint_codec 1 p.proof.targets laws.varint_lawful
            h.targets_typed h.targets_few (omega (arith, h.targets_few)))
          (Reads-bind (decode_items c 32 c.block_hash_codec.decode) _
            (decode_items-Reads _ c.block_hash_codec 32 p.proof.hashes laws.block_hash_lawful
              h.hashes_typed h.hashes_few (omega (arith, h.hashes_few)))
            (Reads-bind_pure (decode_items c 13 (decode_leaf c)) _
              (decode_items-Reads IsTypedLeaf (leaf_codec c) 13 p.leaves leaf_codec-IsLawful
                h.leaves_typed h.leaves_few (omega (arith, h.leaves_few)))
              (record { at = λ rest. refl }))))

  abbrev pub proof_codec : Codec CompactBlockProof
  proof_codec = record { encode = encode_compact_proof c; decode = decode_compact_proof c }

  pub proof_codec-IsLawful : IsLawful IsServable proof_codec
  proof_codec-IsLawful = record { counts = proof_counts; reads = proof-Reads }

  -- A compact block proof of typed fields, whose counts are within the limits of the decoder and whose
  -- scripts encode within 4,000,000 bytes each: encoding returns the
  -- number of bytes written, and decoding takes exactly these bytes, whatever follows them, and
  -- returns the proof.
  pub decode_compact_proof-encode :
      (p : CompactBlockProof) (rest : List ℕ)
      → IsServable p
      → ((encode_compact_proof c p).len ≡ length (encode_compact_proof c p).bytes)
        × (decode_compact_proof c ((encode_compact_proof c p).bytes ++ rest) ≡ ok (p, rest))
  decode_compact_proof-encode p rest h = (proof_counts p h, (proof-Reads p h).at rest)
