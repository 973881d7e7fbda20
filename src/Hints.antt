-- ===== src/Hints.antt =====
-- src/prefixed_hints.rs: the leaf counts in front of a hints file. The hints themselves are those of
-- the `hintsfile` crate: a type with the reader of a payload and the stop height.
pub mod Write
use rpc_utreexo_bridge.Base.{
  ℕ, zero, suc, ◌+◌, ◌*◌, ◌^◌, ◌≤◌, ◌<◌, ◌≡◌, refl, sym, ap, ◌∙◌, subst, Bool, true, false, not,
  Option, none, some, List, [], ◌∷◌, ◌++◌, append_assoc, length, length-append, take, drop,
  take-append, drop-append, get_elem?, leb, ltb, ◌==◌, if◌then◌else◌, Result, ok, err, All, arith,
  Bool-cases, inl, inr, ==_refl,
}
use rpc_utreexo_bridge.Bytes.{
  to_le_bytes, from_le_bytes, from_le_bytes-to_le_bytes, length-to_le_bytes, bytes_eq,
  bytes_eq_refl,
}
use rpc_utreexo_bridge.Reader.{
  Reader, pure, ◌>>=◌, ◌>>◌, guard, concat_map, Reads, Reads-bind, Reads-bind_pure,
}

pub data HintsError : Type 0 where
  read_failed bad_magic zero_height height_mismatch wrong_count nonzero_first write_failed :
      HintsError

pub record BridgeHints (H : Type 0) : Type 0 where
  pub hints : H
  pub leaf_counts : List ℕ

-- b"BRLFCT01"
abbrev pub magic : List ℕ
magic = 0x42 ∷ 0x52 ∷ 0x4c ∷ 0x46 ∷ 0x43 ∷ 0x54 ∷ 0x30 ∷ 0x31 ∷ []

unfoldable pub read_array : ℕ → Reader HintsError (List ℕ)
read_array n r = if leb n (length r) then ok (take n r, drop n r) else err read_failed

module _ {H : Type 0} (stop_height : H → ℕ) (read_hints : Reader HintsError H) where
  unfoldable pub from_reader : Reader HintsError (BridgeHints H)
  from_reader = do
    found ← read_array 8
    guard (bytes_eq found magic) bad_magic
    height ← read_array 4
    guard (not (from_le_bytes height == 0)) zero_height
    leaf_counts ← read_array (from_le_bytes height * 4)
    hints ← read_hints
    guard (stop_height hints == from_le_bytes height) height_mismatch
    pure (record { hints = hints; leaf_counts = leaf_counts })

  unfoldable pub leaf_count_at_height : BridgeHints H → ℕ → Option ℕ
  leaf_count_at_height b zero = none
  leaf_count_at_height b (suc index) =
      if ltb (stop_height b.hints) (suc index)
      then none
      else if leb (index * 4 + 4) (length b.leaf_counts)
      then some (from_le_bytes (take 4 (drop (index * 4) b.leaf_counts)))
      else none

-- What a prefix is: the magic, the stop height, and the counts without that of height zero.
abbrev pub prefix_bytes : ℕ → List ℕ → List ℕ
prefix_bytes stop counts = magic ++ (to_le_bytes 4 stop ++ concat_map (to_le_bytes 4) counts)

drop-append_add : (xs ys : List ℕ) (k : ℕ) → drop (length xs + k) (xs ++ ys) ≡ drop k ys
drop-append_add [] ys k = let e : 0 + k ≡ k = omega arith in ap (λ n. drop n ys) e
drop-append_add (x ∷ xs) ys k =
    let e : suc (length xs) + k ≡ suc (length xs + k) = omega arith in
    ap (λ n. drop n (x ∷ (xs ++ ys))) e ∙ drop-append_add xs ys k

-- The count at an index stands at four times the index.
count_at :
    (counts : List ℕ) (i : ℕ)
    → All (λ n. n < 256 ^ 4) counts
    → i < length counts
    → some (from_le_bytes (take 4 (drop (i * 4) (concat_map (to_le_bytes 4) counts))))
      ≡ get_elem? counts i
count_at [] i h less = absurd (omega arith)
count_at (n ∷ counts) zero h less =
    ap (λ l. some (from_le_bytes l))
      (subst (λ k. take k (to_le_bytes 4 n ++ concat_map (to_le_bytes 4) counts) ≡ to_le_bytes 4 n)
        (length-to_le_bytes 4 n)
        (take-append (to_le_bytes 4 n) (concat_map (to_le_bytes 4) counts)))
    ∙ ap some (from_le_bytes-to_le_bytes 4 n h.0)
count_at (n ∷ counts) (suc i) h less =
    let shift : suc i * 4 ≡ length (to_le_bytes 4 n) + i * 4 =
      omega (arith, length-to_le_bytes 4 n) in
    ap (λ k. some (from_le_bytes (take 4 (drop k (concat_map (to_le_bytes 4) (n ∷ counts)))))) shift
    ∙ ap (λ l. some (from_le_bytes (take 4 l)))
        (drop-append_add (to_le_bytes 4 n) (concat_map (to_le_bytes 4) counts) (i * 4))
    ∙ count_at counts i h.1 (omega arith)

read_array-Reads : (bs : List ℕ) → Reads (read_array (length bs)) bs bs
unfolding read_array
read_array-Reads bs = record {
  at = λ rest.
      let fits : leb (length bs) (length (bs ++ rest)) ≡ true =
        ground (arith, length-append bs rest) in
      rw (fits, take-append bs rest, drop-append bs rest) refl;
}

guard-Reads : (test : Bool) (e : HintsError) → test ≡ true → Reads (guard test e) [] tt
guard-Reads true e h = record { at = λ rest. refl }
guard-Reads false e h = cc

read_array_of-Reads : (n : ℕ) (bs : List ℕ) → length bs ≡ n → Reads (read_array n) bs bs
read_array_of-Reads n bs e = subst (λ k. Reads (read_array k) bs bs) e (read_array-Reads bs)

pub length-counts :
    (counts : List ℕ) → length (concat_map (to_le_bytes 4) counts) ≡ length counts * 4
length-counts [] = omega arith
length-counts (n ∷ counts) = omega (
  arith,
  length-append (to_le_bytes 4 n) (concat_map (to_le_bytes 4) counts),
  length-to_le_bytes 4 n,
  length-counts counts,
)

module _ {H : Type 0} (stop_height : H → ℕ) (read_hints : Reader HintsError H) where
  pub prefix-Reads :
      (counts payload : List ℕ) (hints : H)
      → 0 < length counts
      → length counts < 256 ^ 4
      → stop_height hints ≡ length counts
      → Reads read_hints payload hints
      → Reads
          (from_reader stop_height read_hints)
          (prefix_bytes (length counts) counts ++ payload)
          (record { hints = hints; leaf_counts = concat_map (to_le_bytes 4) counts })
  unfolding from_reader
  prefix-Reads counts payload hints some_blocks small same reads =
      let stop = length counts in
      let back = from_le_bytes-to_le_bytes 4 stop small in
      let body = concat_map (to_le_bytes 4) counts in
      let nonzero : not (from_le_bytes (to_le_bytes 4 stop) == 0) ≡ true = rw back (ground arith) in
      let equal : (stop_height hints == from_le_bytes (to_le_bytes 4 stop)) ≡ true =
        rw (back, same) (==_refl stop) in
      let layout : magic ++ (to_le_bytes 4 stop ++ (body ++ payload))
          ≡ prefix_bytes stop counts ++ payload =
        simp append_assoc in
      subst
        (λ (l : List ℕ).
          Reads (from_reader stop_height read_hints) l
            (record { hints = hints; leaf_counts = body }))
        layout
        (Reads-bind (read_array 8) _ (read_array_of-Reads 8 magic refl) (
          Reads-bind (guard (bytes_eq magic magic) bad_magic) _
            (guard-Reads (bytes_eq magic magic) bad_magic (bytes_eq_refl magic))
            (Reads-bind (read_array 4) _
              (read_array_of-Reads 4 (to_le_bytes 4 stop) (length-to_le_bytes 4 stop))
              (Reads-bind (guard (not (from_le_bytes (to_le_bytes 4 stop) == 0)) zero_height) _
                (guard-Reads _ zero_height nonzero)
                (Reads-bind (read_array (from_le_bytes (to_le_bytes 4 stop) * 4)) _
                  (read_array_of-Reads _ body (length-counts counts ∙ ap (λ n. n * 4) (sym back)))
                  (Reads-bind_pure read_hints _ reads (
                    Reads-bind_pure (guard _ height_mismatch) _
                      (guard-Reads _ height_mismatch equal) (record { at = λ rest. refl }))))))))

  pub found_count :
      (counts : List ℕ) (first : ℕ) (hints : H) (height : ℕ)
      → All (λ n. n < 256 ^ 4) counts
      → stop_height hints ≡ length counts
      → 0 < height
      → height ≤ length counts
      → leaf_count_at_height stop_height read_hints
          (record { hints = hints; leaf_counts = concat_map (to_le_bytes 4) counts })
          height
        ≡ get_elem? (first ∷ counts) height
  unfolding leaf_count_at_height
  found_count counts first hints zero typed same positive below = absurd (omega arith)
  found_count counts first hints (suc index) typed same positive below =
      let inside : ltb (stop_height hints) (suc index) ≡ false = rw same (ground arith) in
      let fits : leb (index * 4 + 4) (length (concat_map (to_le_bytes 4) counts)) ≡ true =
        ground (arith, length-counts counts) in
      rw (inside, fits) (count_at counts index typed (omega arith))
