-- ===== src/Node/Wire/Accepted.antt =====
-- src/node.rs: what the parts of `V2Codec::decode` accept.
use rpc_utreexo_bridge.Base.{
  ℕ, zero, suc, take, length-take_of_le, ◌≤◌, ◌≡◌, sym, ap, List, [], ◌∷◌, length, leb, leb→le,
  Bool-cases, inl, inr, Result, ok, err, >>=-eq-ok, guard, guard-eq-ok, arith, subst,
}
use rpc_utreexo_bridge.Reader.{Reader, repeat, bind-eq-ok}
use rpc_utreexo_bridge.Consensus.{ConsensusError, BitcoinConsensus}
use rpc_utreexo_bridge.Node.Wire.Messages.{
  GetUtreexoProof, GetHeadersMessage, WireConsensus, max_getdata_items, max_locator_hashes,
  max_proof_bitmap_bytes, max_user_agent_bytes, read_exact, bounded, decode_bitmap,
  decode_get_utreexo_proof,
}
use rpc_utreexo_bridge.Node.Wire.Decode.{
  too_many_inventory_items, too_many_locator_hashes, user_agent_too_long, lift, finish,
  ensure_empty, decode_exact, decode_get_data, decode_get_headers, decode_version,
}

-- A counted read returns as many items as were asked for.
length-repeat :
    {A : Type 0} (m : Reader ConsensusError A) (n : ℕ) (r rest : List ℕ) (items : List A)
    → repeat n m r ≡ ok (items, rest)
    → length items ≡ n
unfolding repeat
length-repeat m zero r rest items h = let e : [] ≡ items = cc h in ap length (sym e)
length-repeat m (suc n) r rest items h =
    let (x, after, e, h1) = bind-eq-ok m _ r rest items h in
    let (xs, last, e2, h2) = bind-eq-ok (repeat n m) _ after rest items h1 in
    let whole : x ∷ xs ≡ items = cc h2 in
    subst (λ (l : List _). length l ≡ suc n) whole (ap suc (length-repeat m n after last xs e2))

pub lift-eq-ok : {A : Type 0} (q : Result ConsensusError A) {a : A} → lift q ≡ ok a → q ≡ ok a
lift-eq-ok (ok x) h = cc h
lift-eq-ok (err e) h = cc

finish-eq-ok : {A : Type 0} (x : A × List ℕ) {a : A} → finish x ≡ ok a → x.0 ≡ a
unfolding ensure_empty
finish-eq-ok (b, []) h = cc h
finish-eq-ok (b, r ∷ rs) h = cc

pub decode_exact-eq-ok :
    {A : Type 0} (m : Reader ConsensusError A) (payload : List ℕ) {a : A}
    → decode_exact m payload ≡ ok a
    → (rest : List ℕ) × (m payload ≡ ok (a, rest))
unfolding decode_exact
decode_exact-eq-ok m payload h =
    let (x, e, h1) = >>=-eq-ok (lift (m payload)) finish h in
    (x.1, cc (lift-eq-ok (m payload) e, finish-eq-ok x h1))

bounded-eq-ok :
    (top n : ℕ) (r : List ℕ) (k : ℕ) (rest : List ℕ) → bounded top n r ≡ ok (k, rest) → k ≤ top
unfolding bounded
bounded-eq-ok top n r k rest h = ground arith

read_exact-eq-ok : (n : ℕ) (r bs rest : List ℕ) → read_exact n r ≡ ok (bs, rest) → length bs ≡ n
unfolding read_exact
read_exact-eq-ok n r bs rest h = elim (Bool-cases (leb n (length r))) [
  | inl fits ↦
      let e : take n r ≡ bs = cc (rw fits at h) in
      subst (λ (l : List ℕ). length l ≡ n) e (length-take_of_le n r (leb→le n (length r) fits))
  | inr short ↦ cc (rw short at h)
]

module _ (c : BitcoinConsensus) {V : Type 0} {F : Type 0} (w : WireConsensus V F) where
  decode_bitmap-bound :
      (r bs rest : List ℕ)
      → decode_bitmap c w r ≡ ok (bs, rest)
      → length bs ≤ max_proof_bitmap_bytes
  unfolding decode_bitmap
  decode_bitmap-bound r bs rest h =
      let (n, r1, e1, h1) = bind-eq-ok c.varint_codec.decode _ r rest bs h in
      let (k, r2, e2, h2) = bind-eq-ok (bounded max_proof_bitmap_bytes n) _ r1 rest bs h1 in
      omega
        (arith, bounded-eq-ok max_proof_bitmap_bytes n r1 k r2 e2, read_exact-eq-ok k r2 bs rest h2)

  pub decode_get_utreexo_proof-bound :
      (r rest : List ℕ) (m : GetUtreexoProof)
      → decode_get_utreexo_proof c w r ≡ ok (m, rest)
      → (length m.proof_bitmap ≤ max_proof_bitmap_bytes)
        × (length m.leaf_bitmap ≤ max_proof_bitmap_bytes)
  unfolding decode_get_utreexo_proof
  decode_get_utreexo_proof-bound r rest m h =
      let (hash, r1, e1, h1) = bind-eq-ok c.block_hash_codec.decode _ r rest m h in
      let (mask, r2, e2, h2) = bind-eq-ok c.u8_codec.decode _ r1 rest m h1 in
      let (proof, r3, e3, h3) = bind-eq-ok (decode_bitmap c w) _ r2 rest m h2 in
      let (leaf, r4, e4, h4) = bind-eq-ok (decode_bitmap c w) _ r3 rest m h3 in
      let built : record {
        block_hash = hash;
        request_mask = mask;
        proof_bitmap = proof;
        leaf_bitmap = leaf;
      }
          ≡ m =
        cc h4 in
      subst
        (λ (q : GetUtreexoProof).
          (length q.proof_bitmap ≤ max_proof_bitmap_bytes)
          × (length q.leaf_bitmap ≤ max_proof_bitmap_bytes))
        built (decode_bitmap-bound r2 proof r3 e3, decode_bitmap-bound r3 leaf r4 e4)

  module _ (user_agent_len : V → ℕ) where
    pub decode_get_data-bound :
        (payload : List ℕ) (items : List (List ℕ))
        → decode_get_data c w user_agent_len payload ≡ ok items
        → length items ≤ max_getdata_items
    unfolding decode_get_data
    decode_get_data-bound payload items h =
        let ((count, r), e1, h1) = >>=-eq-ok (lift (c.varint_codec.decode payload)) _ h in
        let (u, small, h2) =
          >>=-eq-ok (guard (leb count max_getdata_items) (too_many_inventory_items count)) _ h1 in
        let ((got, rest), e3, h3) = >>=-eq-ok (lift (repeat count w.inventory r)) finish h2 in
        let e : got ≡ items = finish-eq-ok (got, rest) h3 in
        subst (λ (l : List (List ℕ)). length l ≤ max_getdata_items) e
          (omega (
            arith,
            length-repeat w.inventory count r rest got (lift-eq-ok _ e3),
            leb→le count max_getdata_items (guard-eq-ok _ _ small),
          ))

    pub decode_get_headers-bound :
        (payload : List ℕ) (m : GetHeadersMessage)
        → decode_get_headers c w user_agent_len payload ≡ ok m
        → length m.locator_hashes ≤ max_locator_hashes
    unfolding decode_get_headers
    decode_get_headers-bound payload m h =
        let ((v, r0), e0, h0) = >>=-eq-ok (lift (c.u32_codec.decode payload)) _ h in
        let ((count, r), e1, h1) = >>=-eq-ok (lift (c.varint_codec.decode r0)) _ h0 in
        let (u, small, h2) =
          >>=-eq-ok (guard (leb count max_locator_hashes) (too_many_locator_hashes count)) _ h1 in
        let ((got, r3), e3, h3) =
          >>=-eq-ok (lift (repeat count c.block_hash_codec.decode r)) _ h2 in
        let ((stop, r4), e4, h4) = >>=-eq-ok (lift (c.block_hash_codec.decode r3)) _ h3 in
        let e : got ≡ m.locator_hashes =
          ap (λ (q : GetHeadersMessage). q.locator_hashes) (finish-eq-ok _ h4) in
        subst (λ (l : List (List ℕ)). length l ≤ max_locator_hashes) e
          (omega (
            arith,
            length-repeat c.block_hash_codec.decode count r r3 got (lift-eq-ok _ e3),
            leb→le count max_locator_hashes (guard-eq-ok _ _ small),
          ))

    pub decode_version-bound :
        (payload : List ℕ) (v : V)
        → decode_version c w user_agent_len payload ≡ ok v
        → user_agent_len v ≤ max_user_agent_bytes
    unfolding decode_version
    decode_version-bound payload v h =
        let (got, e1, h1) = >>=-eq-ok (decode_exact w.version payload) _ h in
        let (u, small, h2) =
          >>=-eq-ok
            (guard (leb (user_agent_len got) max_user_agent_bytes)
              (user_agent_too_long (user_agent_len got)))
            _ h1 in
        let e : got ≡ v = cc h2 in
        subst (λ (x : V). user_agent_len x ≤ max_user_agent_bytes) e
          (leb→le _ max_user_agent_bytes (guard-eq-ok _ _ small))
