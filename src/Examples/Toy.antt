-- ===== src/Examples/Toy.antt =====
-- A consensus encoding that obeys the laws: fixed-width little-endian numbers, raw hashes, and
-- scripts behind a 4-byte length. It stands for the `bitcoin` crate in the examples.
use rpc_utreexo_bridge.Base.{
  ℕ, ◌+◌, ◌^◌, ◌<◌, ◌≡◌, true, refl, ap, sym, subst, List, ◌++◌, length, length-append, take, drop,
  take-append, drop-append, leb, if◌then◌else◌, ok, err, arith,
}
use rpc_utreexo_bridge.Bytes.{
  IsBytes, to_le_bytes, from_le_bytes, from_le_bytes-to_le_bytes, length-to_le_bytes,
}
use rpc_utreexo_bridge.Reader.{Reader, pure, ◌>>=◌, Reads, Reads-bind, Reads-bind_pure}
use rpc_utreexo_bridge.Consensus.{
  ConsensusError, io_error, Codec, IsLawful, BitcoinConsensus, Laws, IsScript,
}

unfoldable pub take_bytes : ℕ → Reader ConsensusError (List ℕ)
take_bytes n r = if leb n (length r) then ok (take n r, drop n r) else err io_error

take_bytes-Reads : (bs : List ℕ) → Reads (take_bytes (length bs)) bs bs
unfolding take_bytes
take_bytes-Reads bs = record {
  at = λ rest. rw (fits bs rest, take-append bs rest, drop-append bs rest) refl;
}
  where
    fits : (bs rest : List ℕ) → leb (length bs) (length (bs ++ rest)) ≡ true
    fits bs rest = ground (arith, length-append bs rest)

unfoldable pub number_codec : ℕ → Codec ℕ
number_codec k = record {
  encode = λ v. record { bytes = to_le_bytes k v; len = k };
  decode = take_bytes k >>= λ bs. pure (from_le_bytes bs);
}

pub number-IsLawful : (k : ℕ) → IsLawful (λ v. v < 256 ^ k) (number_codec k)
unfolding number_codec
number-IsLawful k = record {
  counts = λ v h. sym (length-to_le_bytes k v);
  reads = λ v h.
      Reads-bind_pure (take_bytes k) _
        (subst (λ n. Reads (take_bytes n) (to_le_bytes k v) (to_le_bytes k v))
          (length-to_le_bytes k v) (take_bytes-Reads (to_le_bytes k v)))
        (record { at = λ rest. ap (λ w. ok (w, rest)) (from_le_bytes-to_le_bytes k v h) });
}

unfoldable pub hash_codec : Codec (List ℕ)
hash_codec = record {
  encode = λ bs. record { bytes = bs; len = length bs };
  decode = take_bytes 32;
}

pub hash-IsLawful : IsLawful (IsBytes 32) hash_codec
unfolding hash_codec
hash-IsLawful = record {
  counts = λ bs h. refl;
  reads = λ bs h. subst (λ n. Reads (take_bytes n) bs bs) h.0 (take_bytes-Reads bs);
}

unfoldable pub script_bytes_codec : Codec (List ℕ)
unfolding number_codec
script_bytes_codec = record {
  encode = λ bs. record { bytes = to_le_bytes 4 (length bs) ++ bs; len = 4 + length bs };
  decode = (number_codec 4).decode >>= take_bytes;
}

script_bytes_codec-IsLawful : IsLawful IsScript script_bytes_codec
unfolding script_bytes_codec
script_bytes_codec-IsLawful = record {
  counts = λ bs h.
      omega (arith, length-append (to_le_bytes 4 (length bs)) bs, length-to_le_bytes 4 (length bs));
  reads = λ bs h.
      Reads-bind (number_codec 4).decode take_bytes
        ((number-IsLawful 4).reads (length bs) (omega (arith, h.1))) (take_bytes-Reads bs);
}

unfoldable pub toy : BitcoinConsensus
toy = record {
  u8_codec = number_codec 1;
  u32_codec = number_codec 4;
  u64_codec = number_codec 8;
  varint_codec = number_codec 8;
  block_hash_codec = hash_codec;
  box_bytes_codec = script_bytes_codec;
}

pub toy-Laws : Laws toy
unfolding toy number_codec
toy-Laws = record {
  u8_lawful = number-IsLawful 1;
  u8_one = λ v h. length-to_le_bytes 1 v;
  u32_lawful = number-IsLawful 4;
  u64_lawful = number-IsLawful 8;
  varint_lawful = number-IsLawful 8;
  block_hash_lawful = hash-IsLawful;
  box_bytes_lawful = script_bytes_codec-IsLawful;
}
