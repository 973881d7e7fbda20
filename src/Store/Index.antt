-- ===== src/Store/Index.antt =====
-- src/block_index.rs: the entry of a proof in the index, and its value in the key-value store.
use rpc_utreexo_bridge.Base.{
  ℕ, ◌+◌, ◌^◌, ◌<◌, ◌≡◌, refl, Bool, true, ◌||◌, Option, none, some, List, [], ◌∷◌, ◌++◌, length,
  arith, ◌==◌, leb, take, drop, get_elem?, Result, ok, ◌>>=◌, guard, take-append, drop-append,
  length-append, subst, ◌∙◌, ap, get_elem?-append, >>=-eq-ok, guard-eq-ok, ok_inj,
}
use rpc_utreexo_bridge.Bytes.{
  to_be_bytes, from_be_bytes, from_be_bytes-to_be_bytes, length-to_be_bytes,
}

pub record BlockIndex : Type 0 where
  pub offset : ℕ
  pub size : ℕ
  pub proof_forest_rows : Option ℕ

pub data IndexError : Type 0 where
  wrong_length rows_exceed : IndexError

abbrev pub rows_fit : Option ℕ → Bool
rows_fit none = true
rows_fit (some rows) = leb rows 63

abbrev pub rows_bytes : Option ℕ → List ℕ
rows_bytes none = []
rows_bytes (some rows) = rows ∷ []

-- `usize` has 64 bits, so that the conversions between it and `u64` do not fail.
unfoldable pub to_raw_value : BlockIndex → Result IndexError (List ℕ)
to_raw_value index = guard (rows_fit index.proof_forest_rows) rows_exceed >>= λ _.
    ok (
      to_be_bytes 8 index.size
      ++ (to_be_bytes 8 index.offset ++ rows_bytes index.proof_forest_rows))

unfoldable pub from_raw_value : List ℕ → Result IndexError BlockIndex
from_raw_value r = guard (length r == 16 || length r == 17) wrong_length >>= λ _.
    guard (rows_fit (get_elem? r 16)) rows_exceed >>= λ _. ok (record {
      offset = from_be_bytes (take 8 (drop 8 r));
      size = from_be_bytes (take 8 r);
      proof_forest_rows = get_elem? r 16;
    })

-- The ranges of the fields.
abbrev pub IsIndex : BlockIndex → Type 0
IsIndex index = (index.offset < 256 ^ 8) × (index.size < 256 ^ 8)

abbrev raw_of : BlockIndex → List ℕ
raw_of index =
    to_be_bytes 8 index.size ++ (to_be_bytes 8 index.offset ++ rows_bytes index.proof_forest_rows)

raw-size : (index : BlockIndex) → take 8 (raw_of index) ≡ to_be_bytes 8 index.size
raw-size index =
    subst (λ n. take n (raw_of index) ≡ to_be_bytes 8 index.size) (length-to_be_bytes 8 index.size)
      (take-append (to_be_bytes 8 index.size) _)

raw-tail :
    (index : BlockIndex)
    → drop 8 (raw_of index) ≡ to_be_bytes 8 index.offset ++ rows_bytes index.proof_forest_rows
raw-tail index =
    subst
      (λ n.
        drop n (raw_of index) ≡ to_be_bytes 8 index.offset ++ rows_bytes index.proof_forest_rows)
      (length-to_be_bytes 8 index.size) (drop-append (to_be_bytes 8 index.size) _)

raw-offset : (index : BlockIndex) → take 8 (drop 8 (raw_of index)) ≡ to_be_bytes 8 index.offset
raw-offset index =
    ap (take 8) (raw-tail index)
    ∙ subst
        (λ n.
          take n (to_be_bytes 8 index.offset ++ rows_bytes index.proof_forest_rows)
          ≡ to_be_bytes 8 index.offset)
        (length-to_be_bytes 8 index.offset) (take-append (to_be_bytes 8 index.offset) _)

raw-rows :
    (index : BlockIndex)
    → get_elem? (raw_of index) 16 ≡ get_elem? (rows_bytes index.proof_forest_rows) 0
raw-rows index =
    let size = to_be_bytes 8 index.size in
    let offset = to_be_bytes 8 index.offset in
    let rows = rows_bytes index.proof_forest_rows in
    let whole : 16 ≡ length size + 8 = omega (arith, length-to_be_bytes 8 index.size) in
    let half : 8 ≡ length offset + 0 = omega (arith, length-to_be_bytes 8 index.offset) in
    ap (get_elem? (raw_of index)) whole
    ∙ get_elem?-append size (offset ++ rows) 8
    ∙ ap (get_elem? (offset ++ rows)) half
    ∙ get_elem?-append offset rows 0

rows-first : (rows : Option ℕ) → get_elem? (rows_bytes rows) 0 ≡ rows
rows-first none = refl
rows-first (some rows) = refl

length-raw :
    (index : BlockIndex) → length (raw_of index) ≡ 16 + length (rows_bytes index.proof_forest_rows)
length-raw index = omega (
  arith,
  length-append (to_be_bytes 8 index.size)
      (to_be_bytes 8 index.offset ++ rows_bytes index.proof_forest_rows),
  length-append (to_be_bytes 8 index.offset) (rows_bytes index.proof_forest_rows),
  length-to_be_bytes 8 index.size,
  length-to_be_bytes 8 index.offset,
)

length-accepted :
    (rows : Option ℕ) (n : ℕ) → n ≡ 16 + length (rows_bytes rows) → (n == 16 || n == 17) ≡ true
length-accepted none n h = ground arith
length-accepted (some rows) n h = ground arith

-- A value written by `to_raw_value` is read back by `from_raw_value` as the entry itself.
pub from_raw_value-to_raw_value :
    (index : BlockIndex) {raw : List ℕ}
    → IsIndex index
    → to_raw_value index ≡ ok raw
    → from_raw_value raw ≡ ok index
unfolding to_raw_value from_raw_value
from_raw_value-to_raw_value index h e =
    let (u, fits, same) = >>=-eq-ok (guard (rows_fit index.proof_forest_rows) rows_exceed) _ e in
    subst (λ raw. from_raw_value raw ≡ ok index) (ok_inj same)
      (rw
        (
          length-accepted index.proof_forest_rows (length (raw_of index)) (length-raw index),
          raw-rows index,
          rows-first index.proof_forest_rows,
          guard-eq-ok _ rows_exceed fits,
          raw-size index,
          raw-offset index,
          from_be_bytes-to_be_bytes 8 index.size h.1,
          from_be_bytes-to_be_bytes 8 index.offset h.0,
        )
        refl)
