-- ===== src/Node/Wire/Limits.antt =====
-- src/node.rs: the limits on the requests that `V2Codec::decode` lets through.
use rpc_utreexo_bridge.Base.{
  ℕ, take, drop, if◌then◌else◌, ◌≤◌, ◌≡◌, refl, Bool, true, false, List, [], ◌∷◌, length, leb,
  Result, ok, err, >>=-eq-ok, guard, subst,
}
use rpc_utreexo_bridge.Consensus.{BitcoinConsensus}
use rpc_utreexo_bridge.Node.Wire.Messages.{
  WireConsensus, max_getdata_items, max_locator_hashes, max_proof_bitmap_bytes,
  max_user_agent_bytes, decode_get_utreexo_proof,
}
use rpc_utreexo_bridge.Node.Wire.Decode.{
  NetworkMessage, get_data, get_headers, ping, get_cfilters, version, verack, send_headers,
  get_addr, wtxid_relay, send_addr_v2, V2Message, bitcoin, utreexo_proof, get_utreexo_proof,
  ignored, PeerError, missing_command, lift, ensure_empty, decode_exact, decode_get_data,
  decode_get_headers, decode_command, decode_long_command, decode, wrap, bare,
}
use rpc_utreexo_bridge.Node.Wire.Accepted.{
  decode_exact-eq-ok, decode_get_utreexo_proof-bound, decode_get_data-bound,
  decode_get_headers-bound, decode_version-bound,
}

module _ (c : BitcoinConsensus) {V : Type 0} {F : Type 0} (w : WireConsensus V F)
    (user_agent_len : V → ℕ) where
  -- What a request handler may rely on.
  abbrev pub IsWithinLimits : V2Message V F → Type 0
  IsWithinLimits (bitcoin (get_data items)) = length items ≤ max_getdata_items
  IsWithinLimits (bitcoin (get_headers m)) = length m.locator_hashes ≤ max_locator_hashes
  IsWithinLimits (bitcoin (ping n)) = Unit {0}
  IsWithinLimits (bitcoin (get_cfilters f)) = Unit {0}
  IsWithinLimits (bitcoin (version v)) = user_agent_len v ≤ max_user_agent_bytes
  IsWithinLimits (bitcoin verack) = Unit {0}
  IsWithinLimits (bitcoin send_headers) = Unit {0}
  IsWithinLimits (bitcoin get_addr) = Unit {0}
  IsWithinLimits (bitcoin wtxid_relay) = Unit {0}
  IsWithinLimits (bitcoin send_addr_v2) = Unit {0}
  IsWithinLimits (utreexo_proof m) = ⊥
  IsWithinLimits (get_utreexo_proof m) =
      (length m.proof_bitmap ≤ max_proof_bitmap_bytes)
      × (length m.leaf_bitmap ≤ max_proof_bitmap_bytes)
  IsWithinLimits ignored = Unit {0}

  record Limited (q : Result PeerError (V2Message V F)) : Type 0 where
    at : (msg : V2Message V F) → q ≡ ok msg → IsWithinLimits msg

  Limited-if :
      (b : Bool) {x y : Result PeerError (V2Message V F)}
      → Limited x
      → Limited y
      → Limited (if b then x else y)
  Limited-if true p q = p
  Limited-if false p q = q

  Limited-wrap :
      {A : Type 0} (f : A → V2Message V F) (q : Result PeerError A)
      → ((a : A) → q ≡ ok a → IsWithinLimits (f a))
      → Limited (wrap c w user_agent_len f q)
  Limited-wrap f (ok a) h = record { at = λ msg e. subst IsWithinLimits (cc e) (h a refl) }
  Limited-wrap f (err x) h = record { at = λ msg e. cc }

  Limited-bare :
      (m : NetworkMessage V F) (payload : List ℕ)
      → IsWithinLimits (bitcoin m)
      → Limited (bare c w user_agent_len m payload)
  unfolding ensure_empty
  Limited-bare m [] h = record {
    at = λ msg e. let same : bitcoin m ≡ msg = cc e in subst IsWithinLimits same h;
  }
  Limited-bare m (b ∷ bs) h = record { at = λ msg e. cc }

  request-Limited :
      (payload : List ℕ)
      → Limited (
          wrap c w user_agent_len get_utreexo_proof
            (decode_exact (decode_get_utreexo_proof c w) payload))
  request-Limited payload = Limited-wrap get_utreexo_proof _ (λ m e.
      let (rest, read) = decode_exact-eq-ok (decode_get_utreexo_proof c w) payload e in
      decode_get_utreexo_proof-bound c w payload rest m read)

  get_data-Limited :
      (payload : List ℕ)
      → Limited (
          wrap c w user_agent_len
            (λ m. bitcoin (get_data m))
            (decode_get_data c w user_agent_len payload))
  get_data-Limited payload = Limited-wrap _ _ (decode_get_data-bound c w user_agent_len payload)

  get_headers-Limited :
      (payload : List ℕ)
      → Limited (
          wrap c w user_agent_len
            (λ m. bitcoin (get_headers m))
            (decode_get_headers c w user_agent_len payload))
  get_headers-Limited payload =
      Limited-wrap _ _ (decode_get_headers-bound c w user_agent_len payload)

  ping-Limited :
      (payload : List ℕ)
      → Limited (
          wrap c w user_agent_len (λ m. bitcoin (ping m)) (decode_exact c.u64_codec.decode payload))
  ping-Limited payload = Limited-wrap _ _ (λ m e. tt)

  get_cfilters-Limited :
      (payload : List ℕ)
      → Limited (
          wrap c w user_agent_len
            (λ m. bitcoin (get_cfilters m))
            (decode_exact w.get_cfilters payload))
  get_cfilters-Limited payload = Limited-wrap _ _ (λ m e. tt)

  ignored-Limited : Limited (ok ignored)
  ignored-Limited = record {
    at = λ msg e. let same : ignored ≡ msg = cc e in subst IsWithinLimits same tt;
  }

  decode_command-Limited :
      (command payload : List ℕ) → Limited (decode_command c w user_agent_len command payload)
  unfolding decode_command
  decode_command-Limited command payload =
      Limited-if _ (Limited-wrap _ _ (decode_version-bound c w user_agent_len payload)) (
        Limited-if _ (Limited-bare verack payload tt) (
          Limited-if _ (Limited-bare send_headers payload tt) (
            Limited-if _ (Limited-bare get_addr payload tt) (
              Limited-if _ (Limited-bare wtxid_relay payload tt) (
                Limited-if _ (Limited-bare send_addr_v2 payload tt) (
                  Limited-if _ (request-Limited payload) (
                    Limited-if _ (get_data-Limited payload) (
                      Limited-if _ (get_headers-Limited payload) (
                        Limited-if _ (ping-Limited payload)
                          (Limited-if _ (get_cfilters-Limited payload) ignored-Limited))))))))))

  decode_long_command-Limited :
      (buffer : List ℕ) → Limited (decode_long_command c w user_agent_len buffer)
  unfolding decode_long_command
  decode_long_command-Limited buffer = record {
    at = λ msg h.
        let (u, long, h1) = >>=-eq-ok (guard (leb 12 (length buffer)) missing_command) _ h in
        let ((command, rest), e2, h2) = >>=-eq-ok (lift (w.command (take 12 buffer))) _ h1 in
        (decode_command-Limited command (drop 12 buffer)).at msg h2;
  }

  decode-Limited : (buffer : List ℕ) → Limited (decode c w user_agent_len buffer)
  unfolding decode
  decode-Limited [] = record { at = λ msg e. cc }
  decode-Limited (short_id ∷ payload) = Limited-if _ (decode_long_command-Limited payload) (
      Limited-if _ (get_data-Limited payload) (
        Limited-if _ (get_headers-Limited payload) (
          Limited-if _ (ping-Limited payload) (
            Limited-if _ (get_cfilters-Limited payload)
              (Limited-if _ (request-Limited payload) ignored-Limited)))))

  -- Whatever bytes a peer sends, a message that `decode` returns asks for at most 1024 inventory
  -- items or 101 locator hashes, names itself with at most 256 bytes, selects with bitmaps of at
  -- most 65536 bytes, and is never a proof.
  pub decode-IsWithinLimits :
      (buffer : List ℕ) (msg : V2Message V F)
      → decode c w user_agent_len buffer ≡ ok msg
      → IsWithinLimits msg
  decode-IsWithinLimits buffer = (decode-Limited buffer).at
