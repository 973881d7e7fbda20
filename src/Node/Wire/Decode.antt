-- ===== src/Node/Wire/Decode.antt =====
-- src/node.rs: `V2Codec::decode` and its helpers.
use rpc_utreexo_bridge.Base.{
  ℕ, suc, List, [], ◌∷◌, length, take, drop, leb, ◌==◌, if◌then◌else◌, Result, ok, err, ◌>>=◌, ◌>>◌,
}
use rpc_utreexo_bridge.Base.{guard}
use rpc_utreexo_bridge.Bytes.{bytes_eq}
use rpc_utreexo_bridge.Reader.{Reader, repeat}
use rpc_utreexo_bridge.Consensus.{ConsensusError, BitcoinConsensus}
use rpc_utreexo_bridge.Node.Wire.Messages.{
  GetUtreexoProof, UtreexoProof, GetHeadersMessage, WireConsensus, max_getdata_items,
  max_locator_hashes, max_user_agent_bytes, decode_get_utreexo_proof, encode_get_utreexo_proof,
  encode_utreexo_proof,
}

-- The messages of the `bitcoin` crate that the server decodes; an inventory entry is its bytes.
pub data NetworkMessage (V : Type 0) (F : Type 0) : Type 0 where
  get_data : List (List ℕ) → NetworkMessage V F
  get_headers : GetHeadersMessage → NetworkMessage V F
  ping : ℕ → NetworkMessage V F
  get_cfilters : F → NetworkMessage V F
  version : V → NetworkMessage V F
  verack send_headers get_addr wtxid_relay send_addr_v2 : NetworkMessage V F

pub data V2Message (V : Type 0) (F : Type 0) : Type 0 where
  bitcoin : NetworkMessage V F → V2Message V F
  utreexo_proof : UtreexoProof → V2Message V F
  get_utreexo_proof : GetUtreexoProof → V2Message V F
  ignored : V2Message V F

pub data PeerError : Type 0 where
  missing_short_id missing_command : PeerError
  trailing_payload too_many_inventory_items too_many_locator_hashes user_agent_too_long :
      ℕ → PeerError
  decode_failed : ConsensusError → PeerError

-- `?` on a consensus error.
abbrev pub lift : {A : Type 0} → Result ConsensusError A → Result PeerError A
lift (ok a) = ok a
lift (err e) = err (decode_failed e)

unfoldable pub ensure_empty : List ℕ → Result PeerError (Unit {0})
ensure_empty [] = ok tt
ensure_empty (b ∷ bs) = err (trailing_payload (suc (length bs)))

abbrev pub finish : {A : Type 0} → A × List ℕ → Result PeerError A
finish (a, rest) = ensure_empty rest >>= λ _. ok a

unfoldable pub decode_exact : {A : Type 0} → Reader ConsensusError A → List ℕ → Result PeerError A
decode_exact m payload = lift (m payload) >>= finish

-- The command strings of the allow-list.
abbrev pub version_command : List ℕ
version_command = 0x76 ∷ 0x65 ∷ 0x72 ∷ 0x73 ∷ 0x69 ∷ 0x6f ∷ 0x6e ∷ []

abbrev pub verack_command : List ℕ
verack_command = 0x76 ∷ 0x65 ∷ 0x72 ∷ 0x61 ∷ 0x63 ∷ 0x6b ∷ []

abbrev pub sendheaders_command : List ℕ
sendheaders_command =
    0x73 ∷ 0x65 ∷ 0x6e ∷ 0x64 ∷ 0x68 ∷ 0x65 ∷ 0x61 ∷ 0x64 ∷ 0x65 ∷ 0x72 ∷ 0x73 ∷ []

abbrev pub getaddr_command : List ℕ
getaddr_command = 0x67 ∷ 0x65 ∷ 0x74 ∷ 0x61 ∷ 0x64 ∷ 0x64 ∷ 0x72 ∷ []

abbrev pub wtxidrelay_command : List ℕ
wtxidrelay_command = 0x77 ∷ 0x74 ∷ 0x78 ∷ 0x69 ∷ 0x64 ∷ 0x72 ∷ 0x65 ∷ 0x6c ∷ 0x61 ∷ 0x79 ∷ []

abbrev pub sendaddrv2_command : List ℕ
sendaddrv2_command = 0x73 ∷ 0x65 ∷ 0x6e ∷ 0x64 ∷ 0x61 ∷ 0x64 ∷ 0x64 ∷ 0x72 ∷ 0x76 ∷ 0x32 ∷ []

abbrev pub getuproof_command : List ℕ
getuproof_command = 0x67 ∷ 0x65 ∷ 0x74 ∷ 0x75 ∷ 0x70 ∷ 0x72 ∷ 0x6f ∷ 0x6f ∷ 0x66 ∷ []

abbrev pub getdata_command : List ℕ
getdata_command = 0x67 ∷ 0x65 ∷ 0x74 ∷ 0x64 ∷ 0x61 ∷ 0x74 ∷ 0x61 ∷ []

abbrev pub getheaders_command : List ℕ
getheaders_command = 0x67 ∷ 0x65 ∷ 0x74 ∷ 0x68 ∷ 0x65 ∷ 0x61 ∷ 0x64 ∷ 0x65 ∷ 0x72 ∷ 0x73 ∷ []

abbrev pub ping_command : List ℕ
ping_command = 0x70 ∷ 0x69 ∷ 0x6e ∷ 0x67 ∷ []

abbrev pub getcfilters_command : List ℕ
getcfilters_command =
    0x67 ∷ 0x65 ∷ 0x74 ∷ 0x63 ∷ 0x66 ∷ 0x69 ∷ 0x6c ∷ 0x74 ∷ 0x65 ∷ 0x72 ∷ 0x73 ∷ []

module _ (c : BitcoinConsensus) {V : Type 0} {F : Type 0} (w : WireConsensus V F)
    (user_agent_len : V → ℕ) where
  unfoldable pub decode_get_data : List ℕ → Result PeerError (List (List ℕ))
  decode_get_data payload = do
    (count, reader) ← lift (c.varint_codec.decode payload)
    guard (leb count max_getdata_items) (too_many_inventory_items count)
    inventory ← lift (repeat count w.inventory reader)
    finish inventory

  abbrev pub stop_of : ℕ → List (List ℕ) → List ℕ × List ℕ → Result PeerError GetHeadersMessage
  stop_of v locator_hashes (stop_hash, reader) =
      finish
        (record { version = v; locator_hashes = locator_hashes; stop_hash = stop_hash }, reader)

  unfoldable pub decode_get_headers : List ℕ → Result PeerError GetHeadersMessage
  decode_get_headers payload = do
    (v, after_version) ← lift (c.u32_codec.decode payload)
    (count, after_count) ← lift (c.varint_codec.decode after_version)
    guard (leb count max_locator_hashes) (too_many_locator_hashes count)
    (locator_hashes, after_hashes) ← lift (repeat count c.block_hash_codec.decode after_count)
    stop ← lift (c.block_hash_codec.decode after_hashes)
    stop_of v locator_hashes stop

  unfoldable pub decode_version : List ℕ → Result PeerError V
  decode_version payload = do
    v ← decode_exact w.version payload
    guard (leb (user_agent_len v) max_user_agent_bytes) (user_agent_too_long (user_agent_len v))
    ok v

  -- A message without a payload.
  abbrev pub bare : NetworkMessage V F → List ℕ → Result PeerError (V2Message V F)
  bare message payload = ensure_empty payload >>= λ _. ok (bitcoin message)

  -- A result in the constructor of its message.
  abbrev pub wrap :
      {A : Type 0} → (A → V2Message V F) → Result PeerError A → Result PeerError (V2Message V F)
  wrap message (ok a) = ok (message a)
  wrap message (err e) = err e

  -- The `match` on the command.
  unfoldable pub decode_command : List ℕ → List ℕ → Result PeerError (V2Message V F)
  decode_command command payload =
      if bytes_eq command version_command
      then wrap (λ v. bitcoin (version v)) (decode_version payload)
      else if bytes_eq command verack_command
      then bare verack payload
      else if bytes_eq command sendheaders_command
      then bare send_headers payload
      else if bytes_eq command getaddr_command
      then bare get_addr payload
      else if bytes_eq command wtxidrelay_command
      then bare wtxid_relay payload
      else if bytes_eq command sendaddrv2_command
      then bare send_addr_v2 payload
      else if bytes_eq command getuproof_command
      then wrap get_utreexo_proof (decode_exact (decode_get_utreexo_proof c w) payload)
      else if bytes_eq command getdata_command
      then wrap (λ m. bitcoin (get_data m)) (decode_get_data payload)
      else if bytes_eq command getheaders_command
      then wrap (λ m. bitcoin (get_headers m)) (decode_get_headers payload)
      else if bytes_eq command ping_command
      then wrap (λ m. bitcoin (ping m)) (decode_exact c.u64_codec.decode payload)
      else if bytes_eq command getcfilters_command
      then wrap (λ m. bitcoin (get_cfilters m)) (decode_exact w.get_cfilters payload)
      else ok ignored

  unfoldable pub decode_long_command : List ℕ → Result PeerError (V2Message V F)
  decode_long_command buffer = do
    guard (leb 12 (length buffer)) missing_command
    (command, rest) ← lift (w.command (take 12 buffer))
    decode_command command (drop 12 buffer)

  unfoldable pub decode : List ℕ → Result PeerError (V2Message V F)
  decode [] = err missing_short_id
  decode (short_id ∷ payload) =
      if short_id == 0
      then decode_long_command payload
      else if short_id == 11
      then wrap (λ m. bitcoin (get_data m)) (decode_get_data payload)
      else if short_id == 12
      then wrap (λ m. bitcoin (get_headers m)) (decode_get_headers payload)
      else if short_id == 18
      then wrap (λ m. bitcoin (ping m)) (decode_exact c.u64_codec.decode payload)
      else if short_id == 22
      then wrap (λ m. bitcoin (get_cfilters m)) (decode_exact w.get_cfilters payload)
      else if short_id == 30
      then wrap get_utreexo_proof (decode_exact (decode_get_utreexo_proof c w) payload)
      else ok ignored

  -- `V2Codec::encode` of the messages that the bridge defines.
  unfoldable pub encode_request : GetUtreexoProof → List ℕ
  encode_request m = 30 ∷ (encode_get_utreexo_proof c w m).bytes

  unfoldable pub encode_response : UtreexoProof → List ℕ
  encode_response m = 29 ∷ (encode_utreexo_proof c w m).bytes
