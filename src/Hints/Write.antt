-- ===== src/Hints/Write.antt =====
-- src/prefixed_hints.rs: `write_leaf_count_prefix`, on a writer whose calls may fail.
use rpc_utreexo_bridge.Base.{
  ℕ, zero, suc, ◌+◌, ◌*◌, ◌^◌, ◌≤◌, ◌<◌, ◌≡◌, refl, sym, ap, ◌∙◌, subst, Bool, true, false, not,
  List, [], ◌∷◌, ◌++◌, append_assoc, append-nil, length, length-append, length-replicate,
  length-drop, take, drop, take-append-drop, replicate, get_elem?, ltb, ◌==◌, if◌then◌else◌, Result,
  ok, err, All, arith, Bool-cases, inl, inr,
}
use rpc_utreexo_bridge.Bytes.{to_le_bytes, length-to_le_bytes}
use rpc_utreexo_bridge.Reader.{Reader, concat_map, Reads}
use rpc_utreexo_bridge.Hints.{
  HintsError, wrong_count, nonzero_first, write_failed, BridgeHints, magic, from_reader,
  leaf_count_at_height, prefix_bytes, prefix-Reads, found_count,
}

-- `W: Write`: a call that writes all the bytes, or fails.
pub record Writer (W : Type 0) : Type 0 where
  pub write_all : List ℕ → W → W × Bool

-- What was written so far grows by the bytes of a call that succeeds.
pub record IsWriter {W : Type 0} (out : Writer W) (written : W → List ℕ) : Type 0 where
  pub appends :
      (bytes : List ℕ) (w w' : W)
      → out.write_all bytes w ≡ (w', true)
      → written w' ≡ written w ++ bytes

abbrev pub counts_per_write : ℕ
counts_per_write = 1024

-- `chunks(size)`, on as many turns as there are items.
unfoldable pub chunks : ℕ → ℕ → List ℕ → List (List ℕ)
chunks size zero xs = []
chunks size (suc turns) [] = []
chunks size (suc turns) (x ∷ xs) = take size (x ∷ xs) ∷ chunks size turns (drop size (x ∷ xs))

-- The counts are copied into the four-byte slots of the buffer, as long as there are both.
unfoldable pub fill_slots : List ℕ → List ℕ → List ℕ
fill_slots encoded [] = encoded
fill_slots encoded (count ∷ counts) =
    let rest = fill_slots (drop 4 encoded) counts in
    if ltb (length encoded) 4 then encoded else to_le_bytes 4 count ++ rest

module _ {W : Type 0} (out : Writer W) where
  -- `?` on a write.
  abbrev pub sent :
      W × Bool → (W → W × Result HintsError (Unit {0})) → W × Result HintsError (Unit {0})
  sent (w, true) next = next w
  sent (w, false) next = (w, err write_failed)

  -- The loop over the chunks, on the buffer as the round before left it.
  unfoldable pub write_counts : List (List ℕ) → List ℕ → W → W × Result HintsError (Unit {0})
  write_counts [] encoded w = (w, ok tt)
  write_counts (counts ∷ later) encoded w =
      let filled = fill_slots encoded counts in
      sent (out.write_all (take (length counts * 4) filled) w) (write_counts later filled)

  unfoldable pub write_body : ℕ → List ℕ → W → W × Result HintsError (Unit {0})
  write_body stop counts w = sent (out.write_all magic w) (λ v.
      sent (out.write_all (to_le_bytes 4 stop) v) (λ u.
        write_counts (chunks counts_per_write (length counts) counts)
          (replicate (counts_per_write * 4) 0) u))

  unfoldable pub write_leaf_count_prefix : ℕ → List ℕ → W → W × Result HintsError (Unit {0})
  write_leaf_count_prefix stop [] w = (w, err wrong_count)
  write_leaf_count_prefix stop (first ∷ counts) w =
      if not (suc (length counts) == stop + 1)
      then (w, err wrong_count)
      else if not (first == 0)
      then (w, err nonzero_first)
      else write_body stop counts w

take-append_add : (xs ys : List ℕ) (k : ℕ) → take (length xs + k) (xs ++ ys) ≡ xs ++ take k ys
take-append_add [] ys k = let e : 0 + k ≡ k = omega arith in ap (λ n. take n ys) e
take-append_add (x ∷ xs) ys k =
    let e : suc (length xs) + k ≡ suc (length xs + k) = omega arith in
    ap (λ n. take n (x ∷ (xs ++ ys))) e ∙ ap (◌∷◌ x) (take-append_add xs ys k)

-- The slice that is written holds the counts of the chunk, and the buffer keeps its length.
fill_slots_lem :
    (encoded counts : List ℕ)
    → length counts * 4 ≤ length encoded
    → (take (length counts * 4) (fill_slots encoded counts) ≡ concat_map (to_le_bytes 4) counts)
      × (length (fill_slots encoded counts) ≡ length encoded)
unfolding fill_slots
fill_slots_lem encoded [] h = (refl, refl)
fill_slots_lem encoded (count ∷ counts) h =
    let room : ltb (length encoded) 4 ≡ false = ground arith in
    let (front, same) =
      fill_slots_lem (drop 4 encoded) counts (omega (arith, length-drop 4 encoded)) in
    let rest = fill_slots (drop 4 encoded) counts in
    let word = to_le_bytes 4 count in
    let shift : suc (length counts) * 4 ≡ length word + length counts * 4 =
      omega (arith, length-to_le_bytes 4 count) in
    rw room (
      ap (λ n. take n (word ++ rest)) shift
          ∙ take-append_add word rest (length counts * 4)
          ∙ ap (λ l. word ++ l) front,
      omega
          (arith, length-append word rest, length-to_le_bytes 4 count, same, length-drop 4 encoded),
    )

concat_map-append :
    (xs ys : List ℕ)
    → concat_map (to_le_bytes 4) (xs ++ ys)
      ≡ concat_map (to_le_bytes 4) xs ++ concat_map (to_le_bytes 4) ys
concat_map-append [] ys = refl
concat_map-append (x ∷ xs) ys =
    ap (λ l. to_le_bytes 4 x ++ l) (concat_map-append xs ys)
    ∙ sym (append_assoc (to_le_bytes 4 x) (concat_map (to_le_bytes 4) xs) _)

abbrev encoded_chunks : List (List ℕ) → List ℕ
encoded_chunks chunk_list = concat_map (concat_map (to_le_bytes 4)) chunk_list

length-take-bound : (n : ℕ) (ys : List ℕ) → length (take n ys) ≤ n
length-take-bound zero ys = omega arith
length-take-bound (suc n) [] = omega arith
length-take-bound (suc n) (y ∷ ys) = omega (arith, length-take-bound n ys)

-- The chunks are short enough, and one behind the other they are the counts.
chunks_lem :
    (size turns : ℕ) (xs : List ℕ)
    → 0 < size
    → length xs ≤ turns
    → All (λ chunk. length chunk ≤ size) (chunks size turns xs)
      × (encoded_chunks (chunks size turns xs) ≡ concat_map (to_le_bytes 4) xs)
unfolding chunks
chunks_lem size zero [] positive h = (tt, refl)
chunks_lem size zero (x ∷ xs) positive h = absurd (omega (arith, h))
chunks_lem size (suc turns) [] positive h = (tt, refl)
chunks_lem size (suc turns) (x ∷ xs) positive h =
    let (short, whole) =
      chunks_lem size turns (drop size (x ∷ xs)) positive
        (omega (arith, length-drop size (x ∷ xs), h, positive)) in
    (
      (length-take-bound size (x ∷ xs), short),
      ap (λ l. concat_map (to_le_bytes 4) (take size (x ∷ xs)) ++ l) whole
          ∙ sym (concat_map-append (take size (x ∷ xs)) (drop size (x ∷ xs)))
          ∙ ap (concat_map (to_le_bytes 4)) (take-append-drop size (x ∷ xs)),
    )

module _ {W : Type 0} (out : Writer W) (written : W → List ℕ) (laws : IsWriter out written) where
  sent-eq-ok :
      (q : W × Bool) (next : W → W × Result HintsError (Unit {0})) {w' : W}
      → sent out q next ≡ (w', ok tt)
      → (v : W) × (q ≡ (v, true)) × (next v ≡ (w', ok tt))
  sent-eq-ok (w, true) next h = (w, refl, h)
  sent-eq-ok (w, false) next h = cc h

  write_counts-written :
      (later : List (List ℕ)) (encoded : List ℕ) (w w' : W)
      → All (λ chunk. length chunk ≤ counts_per_write) later
      → length encoded ≡ counts_per_write * 4
      → write_counts out later encoded w ≡ (w', ok tt)
      → written w' ≡ written w ++ encoded_chunks later
  unfolding write_counts
  write_counts-written [] encoded w w' short size h =
      ap written (cc h) ∙ sym (append-nil (written w))
  write_counts-written (counts ∷ later) encoded w w' short size h =
      let (v, sends, rest) = sent-eq-ok _ _ h in
      let (front, same) = fill_slots_lem encoded counts (omega (arith, short.0, size)) in
      let first = laws.appends _ w v sends in
      write_counts-written later (fill_slots encoded counts) v w' short.1 (same ∙ size) rest
      ∙ ap (λ l. l ++ encoded_chunks later) (first ∙ ap (λ l. written w ++ l) front)
      ∙ append_assoc (written w) (concat_map (to_le_bytes 4) counts) (encoded_chunks later)

  write_body-written :
      (stop : ℕ) (counts : List ℕ) (w w' : W)
      → write_body out stop counts w ≡ (w', ok tt)
      → written w' ≡ written w ++ prefix_bytes stop counts
  unfolding write_body
  write_body-written stop counts w w' h =
      let (v, e1, h1) = sent-eq-ok _ _ h in
      let (u, e2, h2) = sent-eq-ok _ _ h1 in
      let (short, whole) =
        chunks_lem counts_per_write (length counts) counts (omega arith) (omega arith) in
      write_counts-written _ _ u w' short (length-replicate {A = ℕ} (counts_per_write * 4) 0) h2
      ∙ ap (λ l. written u ++ l) whole
      ∙ ap (λ l. l ++ concat_map (to_le_bytes 4) counts)
          (laws.appends _ v u e2 ∙ ap (λ l. l ++ to_le_bytes 4 stop) (laws.appends _ w v e1))
      ∙ simp append_assoc

  write_facts :
      (stop first : ℕ) (counts : List ℕ) (w w' : W)
      → write_leaf_count_prefix out stop (first ∷ counts) w ≡ (w', ok tt)
      → (length counts ≡ stop) × (write_body out stop counts w ≡ (w', ok tt))
  unfolding write_leaf_count_prefix
  write_facts stop first counts w w' h = elim (Bool-cases (suc (length counts) == stop + 1)) [
    | inr wrong ↦ cc (rw wrong at h)
    | inl right ↦ elim (Bool-cases (first == 0)) [
      | inr wrong ↦ cc (rw (right, wrong) at h)
      | inl zeroed ↦ (ground (arith, right), rw (right, zeroed) at h)
    ]
  ]

  module _ {H : Type 0} (stop_height : H → ℕ) (read_hints : Reader HintsError H) where
    -- A writer whose successful calls append their bytes, a prefix that was written to it for at least one
    -- block, with counts of 32 bits, and a payload whose hints stop at the same height: what was
    -- written, with the payload behind it, is read back, and the count at every height from 1 to the stop
    -- height is the one that was given.
    pub leaf_count_at_height-write :
        (stop first : ℕ) (counts payload rest : List ℕ) (hints : H) (height : ℕ) (w w' : W)
        → write_leaf_count_prefix out stop (first ∷ counts) w ≡ (w', ok tt)
        → All (λ n. n < 256 ^ 4) counts
        → stop < 256 ^ 4
        → stop_height hints ≡ stop
        → Reads read_hints payload hints
        → 0 < height
        → height ≤ stop
        → (bytes : List ℕ) × (written w' ≡ written w ++ bytes)
          × (b : BridgeHints H) × (from_reader stop_height read_hints ((bytes ++ payload) ++ rest)
              ≡ ok (b, rest))
          × (leaf_count_at_height stop_height read_hints b height
              ≡ get_elem? (first ∷ counts) height)
    leaf_count_at_height-write stop first counts payload rest hints height w w' e typed small same
          reads positive below =
        let (count, body) = write_facts stop first counts w w' e in
        let read =
          prefix-Reads stop_height read_hints counts payload hints (omega arith) (omega arith)
            (same ∙ sym count) reads in
        (
          prefix_bytes stop counts,
          write_body-written stop counts w w' body,
          record { hints = hints; leaf_counts = concat_map (to_le_bytes 4) counts },
          subst
              (λ (n : ℕ).
                from_reader stop_height read_hints ((prefix_bytes n counts ++ payload) ++ rest)
                ≡ ok (
                  record { hints = hints; leaf_counts = concat_map (to_le_bytes 4) counts },
                  rest,
                ))
              count (read.at rest),
          found_count stop_height read_hints counts first hints height typed (same ∙ sym count)
              positive (omega arith),
        )
