-- ===== src/File/Slices.antt =====
-- The contents of a file and the operations on it.
use rpc_utreexo_bridge.Base.{
  ℕ, zero, suc, ◌+◌, ◌-◌, ◌≤◌, ◌<◌, ◌≡◌, refl, ap, ◌∙◌, ◌&&◌, ◌||◌, Option, none, some, List, [],
  ◌∷◌, arith, leb, ltb, ◌==◌, if◌then◌else◌, length, get_or,
}

-- Bytes at and after `len` are not part of the file.
pub record File : Type 0 where
  pub len : ℕ
  pub byte_at : ℕ → ℕ

unfoldable pub read_bytes : (ℕ → ℕ) → ℕ → ℕ → List ℕ
read_bytes f off zero = []
read_bytes f off (suc n) = f off ∷ read_bytes f (suc off) n

-- `read_exact_at`: an empty buffer is filled at any offset.
unfoldable pub read_exact_at : File → ℕ → ℕ → Option (List ℕ)
unfolding read_bytes
read_exact_at file off n =
    if n == 0 || leb (off + n) file.len then some (read_bytes file.byte_at off n) else none

abbrev pub overwrite : (ℕ → ℕ) → ℕ → List ℕ → ℕ → ℕ
overwrite f off bs i = if leb off i && ltb i (off + length bs) then get_or bs (i - off) 0 else f i

abbrev pub fill_zero : (ℕ → ℕ) → ℕ → ℕ → ℕ
fill_zero f len i = if ltb i len then f i else 0

abbrev pub max_len : ℕ → ℕ → ℕ
max_len a b = if leb a b then b else a

-- `write_all_at`: a write past the end extends the file, and the gap reads as zeros.
unfoldable pub write_all_at : File → ℕ → List ℕ → File
write_all_at file off [] = file
write_all_at file off (b ∷ bs) = record {
  len = max_len file.len (off + length (b ∷ bs));
  byte_at = overwrite (fill_zero file.byte_at file.len) off (b ∷ bs);
}

-- `set_len`: the file is cut, or extended by zeros.
unfoldable pub set_len : File → ℕ → File
set_len file n = record { len = n; byte_at = fill_zero file.byte_at file.len }

-- `fallocate` with `FALLOC_FL_PUNCH_HOLE` and `FALLOC_FL_KEEP_SIZE`: the range reads as zeros.
unfoldable pub punch_hole : File → ℕ → ℕ → File
punch_hole file off n = record file {
  byte_at = λ i. if leb off i && ltb i (off + n) then 0 else file.byte_at i;
}

abbrev pub empty_file : File
empty_file = record { len = 0; byte_at = λ _. 0 }

-- The outcome of a system call that changes the file: it was done, or it failed.
pub data Outcome : Type 0 where
  done : Outcome
  failed : File → Outcome

-- Two contents that agree on a range read alike there.
pub read_bytes_congr :
    (f g : ℕ → ℕ) (off n : ℕ)
    → ((i : ℕ) → off ≤ i → i < off + n → f i ≡ g i)
    → read_bytes f off n ≡ read_bytes g off n
unfolding read_bytes
read_bytes_congr f g off zero h = refl
read_bytes_congr f g off (suc n) h = cc (
  h off (omega arith) (omega arith),
  read_bytes_congr f g (suc off) n (λ i p q. h i (omega arith) (omega arith)),
)

-- A content that spells a list reads as that list.
pub read_bytes_spells :
    (f : ℕ → ℕ) (off : ℕ) (bs : List ℕ)
    → ((i : ℕ) → i < length bs → f (off + i) ≡ get_or bs i 0)
    → read_bytes f off (length bs) ≡ bs
unfolding read_bytes
read_bytes_spells f off [] h = refl
read_bytes_spells f off (b ∷ bs) h =
    let first : f off ≡ b = ap f (omega arith) ∙ h 0 (omega arith) in
    let rest : (i : ℕ) → i < length bs → f (suc off + i) ≡ get_or bs i 0 =
      λ i p. ap f (omega arith) ∙ h (suc i) (omega arith) in
    cc (first, read_bytes_spells f (suc off) bs rest)

pub length-read_bytes : (f : ℕ → ℕ) (off n : ℕ) → length (read_bytes f off n) ≡ n
unfolding read_bytes
length-read_bytes f off zero = refl
length-read_bytes f off (suc n) = ap suc (length-read_bytes f (suc off) n)
