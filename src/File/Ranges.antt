-- ===== src/File/Ranges.antt =====
-- Two contents that agree on a range of offsets, and the parts of a read.
use rpc_utreexo_bridge.Base.{
  ℕ, zero, suc, ◌+◌, ◌-◌, ◌≤◌, ◌<◌, ◌≡◌, refl, ap, ◌∙◌, sym, List, [], ◌∷◌, arith, length, take,
  drop,
}
use rpc_utreexo_bridge.Bytes.Segments.{slice}
use rpc_utreexo_bridge.File.Slices.{
  File, Outcome, done, failed, read_bytes, write_all_at, set_len, read_bytes_congr,
}
use rpc_utreexo_bridge.File.Laws.{read-write_self, read_exact_at-eq_some}

-- `g` reads as `f` from `lo` on and below `hi`.
abbrev pub SameOn : (ℕ → ℕ) → (ℕ → ℕ) → ℕ → ℕ → Type 0
SameOn f g lo hi = (i : ℕ) → lo ≤ i → i < hi → g i ≡ f i

pub read-SameOn :
    (f g : ℕ → ℕ) (lo hi off n : ℕ)
    → SameOn f g lo hi
    → lo ≤ off
    → off + n ≤ hi
    → read_bytes g off n ≡ read_bytes f off n
read-SameOn f g lo hi off n same from to =
    read_bytes_congr g f off n (λ i p q. same i (omega arith) (omega arith))

take-read_bytes :
    (f : ℕ → ℕ) (off n m : ℕ) → m ≤ n → take m (read_bytes f off n) ≡ read_bytes f off m
unfolding read_bytes
take-read_bytes f off n zero h = refl
take-read_bytes f off zero (suc m) h = absurd (omega (arith, h))
take-read_bytes f off (suc n) (suc m) h =
    ap (◌∷◌ (f off)) (take-read_bytes f (suc off) n m (omega arith))

drop-read_bytes :
    (f : ℕ → ℕ) (off n a : ℕ) → a ≤ n → drop a (read_bytes f off n) ≡ read_bytes f (off + a) (n - a)
unfolding read_bytes
drop-read_bytes f off n zero h =
    let at : off ≡ off + 0 = omega arith in let all : n ≡ n - 0 = omega arith in cc (at, all)
drop-read_bytes f off zero (suc a) h = absurd (omega (arith, h))
drop-read_bytes f off (suc n) (suc a) h =
    let at : suc off + a ≡ off + suc a = omega arith in
    let left : n - a ≡ suc n - suc a = omega arith in
    cc (at, left, drop-read_bytes f (suc off) n a (omega arith))

-- A slice of a read is the read of that range.
pub slice-read_bytes :
    (f : ℕ → ℕ) (off n a m : ℕ)
    → a + m ≤ n
    → slice (read_bytes f off n) a m ≡ read_bytes f (off + a) m
slice-read_bytes f off n a m h =
    ap (take m) (drop-read_bytes f off n a (omega arith))
    ∙ take-read_bytes f (off + a) (n - a) m (omega arith)

-- The operations on a file keep the content below and above what they touch.
pub set_len-SameOn :
    (file : File) (n lo hi : ℕ) → hi ≤ file.len → SameOn file.byte_at (set_len file n).byte_at lo hi
unfolding set_len
set_len-SameOn file n lo hi h = λ i p q. ground arith

pub write-SameOn :
    (file : File) (off : ℕ) (bs : List ℕ) (lo hi : ℕ)
    → hi ≤ file.len
    → ((i : ℕ) → lo ≤ i → i < hi → off ≤ i → off + length bs ≤ i)
    → SameOn file.byte_at (write_all_at file off bs).byte_at lo hi
unfolding write_all_at
write-SameOn file off [] lo hi h apart = λ i p q. refl
write-SameOn file off (b ∷ bs) lo hi h apart = λ i p q. ground (arith, apart i p q)

pub SameOn-trans :
    (f g h : ℕ → ℕ) (lo hi : ℕ) → SameOn f g lo hi → SameOn g h lo hi → SameOn f h lo hi
SameOn-trans f g h lo hi first second = λ i p q. second i p q ∙ first i p q

pub SameOn-narrow :
    (f g : ℕ → ℕ) (lo hi lo' hi' : ℕ) → SameOn f g lo hi → lo ≤ lo' → hi' ≤ hi → SameOn f g lo' hi'
SameOn-narrow f g lo hi lo' hi' same from to = λ i p q. same i (omega arith) (omega arith)

-- A write inside the file keeps its length.
pub len-write_inside :
    (file : File) (off : ℕ) (bs : List ℕ)
    → off + length bs ≤ file.len
    → (write_all_at file off bs).len ≡ file.len
unfolding write_all_at
len-write_inside file off [] h = refl
len-write_inside file off (b ∷ bs) h = ground arith

pub bytes-write_self :
    (file : File) (off : ℕ) (bs : List ℕ)
    → read_bytes (write_all_at file off bs).byte_at off (length bs) ≡ bs
bytes-write_self file off bs =
    sym (
      read_exact_at-eq_some (write_all_at file off bs) off (length bs)
        (read-write_self file off bs))

-- What is still in place below `bound` after a call that failed.
abbrev pub KeepsBelow : Outcome → File → ℕ → Type 0
KeepsBelow done file bound = Unit
KeepsBelow (failed left) file bound = SameOn file.byte_at left.byte_at 0 bound × (bound ≤ left.len)
