-- ===== src/File/Laws.antt =====
-- What a read of a file returns after a write or a change of its length.
use native.Mathlib.Nat.{add-zero, zero-add, suc-add, add-suc}
use rpc_utreexo_bridge.Base.{
  ℕ, zero, suc, ◌+◌, ◌-◌, ◌≤◌, ◌<◌, ◌≡◌, refl, ap, ◌∙◌, sym, ◌⊎◌, some, List, [], ◌∷◌, ◌++◌, arith,
  length, get_or,
}
use rpc_utreexo_bridge.File.Slices.{
  File, read_bytes, read_exact_at, write_all_at, set_len, overwrite, fill_zero, read_bytes_congr,
  read_bytes_spells,
}

pub read_bytes_split :
    (f : ℕ → ℕ) (off n m : ℕ)
    → read_bytes f off (n + m) ≡ read_bytes f off n ++ read_bytes f (off + n) m
unfolding read_bytes
read_bytes_split f off zero m = rw (zero-add, add-zero)
read_bytes_split f off (suc n) m =
    rw (suc-add, add-suc) (ap (◌∷◌ (f off)) (read_bytes_split f (suc off) n m ∙ rw suc-add))

-- A read inside the file.
pub read_exact_at_inside :
    (file : File) (off n : ℕ)
    → off + n ≤ file.len
    → read_exact_at file off n ≡ some (read_bytes file.byte_at off n)
unfolding read_exact_at
read_exact_at_inside file off n h = ground arith

-- Any successful read returns the bytes at its range.
pub read_exact_at-eq_some :
    (file : File) (off n : ℕ) {bs : List ℕ}
    → read_exact_at file off n ≡ some bs
    → bs ≡ read_bytes file.byte_at off n
unfolding read_exact_at
read_exact_at-eq_some file off n h = ground arith

pub read_exact_at_bound :
    (file : File) (off n : ℕ) {bs : List ℕ}
    → read_exact_at file off n ≡ some bs
    → 0 < n
    → off + n ≤ file.len
unfolding read_exact_at
read_exact_at_bound file off n h p = ground arith

overwrite_self :
    (f : ℕ → ℕ) (off : ℕ) (bs : List ℕ) → read_bytes (overwrite f off bs) off (length bs) ≡ bs
overwrite_self f off bs = read_bytes_spells _ off bs (λ i h. hit i h)
  where
    hit : (i : ℕ) → i < length bs → overwrite f off bs (off + i) ≡ get_or bs i 0
    hit i h =
        let e : off + i - off ≡ i = omega arith in ground (arith, ap (λ (j : ℕ). get_or bs j 0) e)

-- What was written is read back.
pub read-write_self :
    (file : File) (off : ℕ) (bs : List ℕ)
    → read_exact_at (write_all_at file off bs) off (length bs) ≡ some bs
unfolding write_all_at read_exact_at read_bytes
read-write_self file off [] = refl
read-write_self file off (b ∷ bs) =
    read_exact_at_inside (write_all_at file off (b ∷ bs)) off (length (b ∷ bs)) (ground arith)
    ∙ ap some (overwrite_self (fill_zero file.byte_at file.len) off (b ∷ bs))

abbrev pub Apart : ℕ → ℕ → ℕ → ℕ → Type 0
Apart off n woff m = (off + n ≤ woff) ⊎ (woff + m ≤ off)

pub len-write_all_at :
    (file : File) (off : ℕ) (bs : List ℕ)
    → (file.len ≤ (write_all_at file off bs).len)
      × (0 < length bs → off + length bs ≤ (write_all_at file off bs).len)
unfolding write_all_at
len-write_all_at file off [] = (omega arith, λ h. elim h [ ])
len-write_all_at file off (b ∷ bs) = (ground arith, λ _. ground arith)

pub bytes-write-Apart :
    (file : File) (off n woff : ℕ) (bs : List ℕ)
    → Apart off n woff (length bs)
    → off + n ≤ file.len
    → read_bytes (write_all_at file woff bs).byte_at off n ≡ read_bytes file.byte_at off n
unfolding write_all_at
bytes-write-Apart file off n woff [] a h = refl
bytes-write-Apart file off n woff (b ∷ bs) a h = read_bytes_congr _ _ off n (λ i p q. ground arith)

-- A write elsewhere does not change a read.
pub read-write-Apart :
    (file : File) (off n woff : ℕ) (bs : List ℕ)
    → Apart off n woff (length bs)
    → off + n ≤ file.len
    → read_exact_at (write_all_at file woff bs) off n ≡ read_exact_at file off n
read-write-Apart file off n woff bs a h =
    read_exact_at_inside (write_all_at file woff bs) off n
      (omega (arith, (len-write_all_at file woff bs).0))
    ∙ ap some (bytes-write-Apart file off n woff bs a h)
    ∙ sym (read_exact_at_inside file off n h)

-- Changing the length keeps what lies below both lengths.
pub bytes-set_len :
    (file : File) (m off n : ℕ)
    → off + n ≤ file.len
    → read_bytes (set_len file m).byte_at off n ≡ read_bytes file.byte_at off n
unfolding set_len
bytes-set_len file m off n h = read_bytes_congr _ _ off n (λ i p q. ground arith)

pub read-set_len :
    (file : File) (m off n : ℕ)
    → off + n ≤ file.len
    → off + n ≤ m
    → read_exact_at (set_len file m) off n ≡ read_exact_at file off n
unfolding set_len
read-set_len file m off n h k =
    read_exact_at_inside (set_len file m) off n k
    ∙ ap some (bytes-set_len file m off n h)
    ∙ sym (read_exact_at_inside file off n h)
