-- ===== src/Examples/Prefixes.antt =====
-- src/prefixed_hints.rs: a prefix for two blocks, in front of hints that are their stop height. The
-- writer is a buffer in memory.
use rpc_utreexo_bridge.Base.{ℕ, ◌≡◌, refl, sym, ap, true, List, [], ◌∷◌, ◌++◌, some, ok, err, arith}
use rpc_utreexo_bridge.Bytes.{to_le_bytes}
use rpc_utreexo_bridge.Reader.{Reader, Reads}
use rpc_utreexo_bridge.Hints.{
  HintsError, read_failed, BridgeHints, from_reader, leaf_count_at_height,
}
use rpc_utreexo_bridge.Hints.Write.{
  Writer, IsWriter, chunks, fill_slots, write_counts, write_body, write_leaf_count_prefix,
  leaf_count_at_height-write,
}

abbrev height_of : ℕ → ℕ
height_of hints = hints

unfoldable read_byte : Reader HintsError ℕ
read_byte [] = err read_failed
read_byte (b ∷ bs) = ok (b, bs)

read_byte-Reads : Reads read_byte (2 ∷ []) 2
unfolding read_byte
read_byte-Reads = record { at = λ rest. refl }

abbrev buffer : Writer (List ℕ)
buffer = record { write_all = λ bytes w. (w ++ bytes, true) }

buffer-IsWriter : IsWriter buffer (λ w. w)
buffer-IsWriter = record { appends = λ bytes w w' h. sym (ap (λ p. p.0) h) }

abbrev after_prefix : List ℕ
after_prefix = (write_leaf_count_prefix buffer 2 (0 ∷ 300 ∷ 20 ∷ []) []).0

prefix_written : write_leaf_count_prefix buffer 2 (0 ∷ 300 ∷ 20 ∷ []) [] ≡ (after_prefix, ok tt)
unfolding write_leaf_count_prefix write_body write_counts chunks fill_slots to_le_bytes
prefix_written = refl

leaf_count_at_height-write_example :
    (bytes : List ℕ) × (after_prefix ≡ [] ++ bytes)
    × (b : BridgeHints ℕ) × (from_reader height_of read_byte ((bytes ++ (2 ∷ [])) ++ (5 ∷ []))
        ≡ ok (b, 5 ∷ []))
    × (leaf_count_at_height height_of read_byte b 1 ≡ some 300)
leaf_count_at_height-write_example =
    leaf_count_at_height-write buffer (λ w. w) buffer-IsWriter height_of read_byte 2 0
      (300 ∷ 20 ∷ []) (2 ∷ []) (5 ∷ []) 2 1 [] after_prefix prefix_written
      (omega arith, (omega arith, tt)) (omega arith) refl read_byte-Reads (omega arith)
      (omega arith)
