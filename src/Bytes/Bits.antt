-- ===== src/Bytes/Bits.antt =====
-- The bit tests of the codecs on one byte, as tables that are checked by evaluation.
use Prim.Native.Nat.{bit_and}
use rpc_utreexo_bridge.Base.{
  ℕ, zero, suc, ◌+◌, subst, Bool-cases, inl, inr, leb→le, ◌≤◌, ◌<◌, ◌≡◌, refl, Bool, true, ◌&&◌,
  ◌||◌, not, arith, ◌==◌, leb,
}

-- The test holds at `start` and at the `n` numbers behind it.
holds_through : (test : ℕ → Bool) (start n : ℕ) → Bool
holds_through test start zero = test start
holds_through test start (suc n) = holds_through test (suc start) n && test start

holds_through-elim :
    (test : ℕ → Bool) (start n b : ℕ)
    → start ≤ b
    → b ≤ start + n
    → holds_through test start n ≡ true
    → test b ≡ true
unfolding holds_through
holds_through-elim test start zero b from to h =
    let same : start ≡ b = omega arith in subst (λ (c : ℕ). test c ≡ true) same h
holds_through-elim test start (suc n) b from to h = elim (Bool-cases (leb (suc start) b)) [
  | inl later ↦
      holds_through-elim test (suc start) n b (leb→le (suc start) b later) (omega arith)
        (ground arith)
  | inr first ↦
      let same : start ≡ b = ground arith in
      let here : test start ≡ true = ground arith in subst (λ (c : ℕ). test c ≡ true) same here
]

byte_table : holds_through (λ b. not (bit_and b 0xfc == 0) || leb b 3) 0 255 ≡ true
unfolding holds_through
byte_table = refl

-- A byte with no bit but the lowest two is at most 3.
pub low_two_bits : (b : ℕ) → b < 256 → (bit_and b 0xfc == 0) ≡ true → b ≤ 3
low_two_bits b h e =
    ground (arith, holds_through-elim _ 0 255 b (omega arith) (omega arith) byte_table)
