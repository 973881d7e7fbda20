-- ===== src/Bytes/Segments.antt =====
-- Fixed offsets in a byte layout: a slice of the concatenation of some segments is the segment
-- that starts there.
use rpc_utreexo_bridge.Base.{
  ℕ, ◌+◌, ◌≡◌, refl, ap, ◌∙◌, sym, List, [], ◌∷◌, ◌++◌, append_assoc, arith, length, take, drop,
  length-append, take-append, drop-append,
}

-- `bytes[off..off + n]`
abbrev pub slice : List ℕ → ℕ → ℕ → List ℕ
slice bs off n = take n (drop off bs)

abbrev pub concat : List (List ℕ) → List ℕ
concat [] = []
concat (s ∷ ss) = s ++ concat ss

abbrev pub total : List (List ℕ) → ℕ
total [] = 0
total (s ∷ ss) = length s + total ss

pub length-concat : (ss : List (List ℕ)) → length (concat ss) ≡ total ss
length-concat [] = refl
length-concat (s ∷ ss) = omega (arith, length-append s (concat ss), length-concat ss)

concat-append : (pre post : List (List ℕ)) → concat (pre ++ post) ≡ concat pre ++ concat post
concat-append [] post = refl
concat-append (s ∷ pre) post =
    ap (◌++◌ s) (concat-append pre post) ∙ sym (append_assoc s (concat pre) (concat post))

pub slice-concat :
    (pre : List (List ℕ)) (seg : List ℕ) (post : List (List ℕ)) (off n : ℕ)
    → total pre ≡ off
    → length seg ≡ n
    → slice (concat (pre ++ (seg ∷ post))) off n ≡ seg
slice-concat pre seg post off n ho hn =
    rw (concat-append pre (seg ∷ post), ← ho, ← hn, ← length-concat pre)
      (rw (drop-append (concat pre) (seg ++ concat post)) (take-append seg (concat post)))

-- The part in front of some segments.
pub take-concat :
    (pre post : List (List ℕ)) (n : ℕ) → total pre ≡ n → take n (concat (pre ++ post)) ≡ concat pre
take-concat pre post n h =
    rw (concat-append pre post, ← h, ← length-concat pre) (take-append (concat pre) (concat post))
