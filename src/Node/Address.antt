-- ===== src/Node/Address.antt =====
-- src/node.rs: `NetworkPrefix`. An address is its octets: 4 of them (`V4`) or 16 (`V6`).
use rpc_utreexo_bridge.Base.{
  ℕ, zero, suc, ◌≤◌, ◌≡◌, ◌⊎◌, inl, inr, refl, ap, sym, ◌∙◌, Bool, Bool-cases, true, false, ◌↔◌,
  Option, none, some, List, [], ◌∷◌, ◌++◌, length, take, drop, take-append-drop, length-drop, arith,
  if◌then◌else◌,
}
use rpc_utreexo_bridge.Base.Assoc.{Eq}
use rpc_utreexo_bridge.Bytes.{bytes_eq, bytes_eq_refl, bytes_eq→eq}

pub data IpAddr : Type 0 where
  v4 : List ℕ → IpAddr
  v6 : List ℕ → IpAddr

pub data NetworkPrefix : Type 0 where
  prefix4 : List ℕ → NetworkPrefix
  prefix6 : List ℕ → NetworkPrefix

-- The first twelve octets of an IPv4-mapped IPv6 address, `::ffff:0:0/96`.
abbrev pub mapped_head : List ℕ
mapped_head = 0 ∷ 0 ∷ 0 ∷ 0 ∷ 0 ∷ 0 ∷ 0 ∷ 0 ∷ 0 ∷ 0 ∷ 0xff ∷ 0xff ∷ []

-- `Ipv6Addr::to_ipv4_mapped` of the standard library.
unfoldable pub to_ipv4_mapped : List ℕ → Option (List ℕ)
to_ipv4_mapped octets =
    if bytes_eq (take 12 octets) mapped_head then some (take 4 (drop 12 octets)) else none

abbrev pub mapped_or : List ℕ → Option (List ℕ) → IpAddr
mapped_or octets (some four) = v4 four
mapped_or octets none = v6 octets

unfoldable pub normalize : IpAddr → IpAddr
unfolding to_ipv4_mapped
normalize (v4 octets) = v4 octets
normalize (v6 octets) = mapped_or octets (to_ipv4_mapped octets)

abbrev pub prefix_of : IpAddr → NetworkPrefix
prefix_of (v4 octets) = prefix4 (take 2 octets)
prefix_of (v6 octets) = prefix6 (take 4 octets)

unfoldable pub from_address : IpAddr → NetworkPrefix
unfolding normalize
from_address address = prefix_of (normalize address)

abbrev ip_beq : IpAddr → IpAddr → Bool
ip_beq (v4 a) (v4 b) = bytes_eq a b
ip_beq (v4 a) (v6 b) = false
ip_beq (v6 a) (v4 b) = false
ip_beq (v6 a) (v6 b) = bytes_eq a b

unfoldable pub prefix_beq : NetworkPrefix → NetworkPrefix → Bool
prefix_beq (prefix4 a) (prefix4 b) = bytes_eq a b
prefix_beq (prefix4 a) (prefix6 b) = false
prefix_beq (prefix6 a) (prefix4 b) = false
prefix_beq (prefix6 a) (prefix6 b) = bytes_eq a b

ip_beq→eq : (a b : IpAddr) → ip_beq a b ≡ true → a ≡ b
ip_beq→eq (v4 a) (v4 b) h = ap v4 (bytes_eq→eq a b h)
ip_beq→eq (v4 a) (v6 b) h = cc
ip_beq→eq (v6 a) (v4 b) h = cc
ip_beq→eq (v6 a) (v6 b) h = ap v6 (bytes_eq→eq a b h)

ip_beq_refl : (a : IpAddr) → ip_beq a a ≡ true
ip_beq_refl (v4 a) = bytes_eq_refl a
ip_beq_refl (v6 a) = bytes_eq_refl a

prefix_beq→eq : (a b : NetworkPrefix) → prefix_beq a b ≡ true → a ≡ b
unfolding prefix_beq
prefix_beq→eq (prefix4 a) (prefix4 b) h = ap prefix4 (bytes_eq→eq a b h)
prefix_beq→eq (prefix4 a) (prefix6 b) h = cc
prefix_beq→eq (prefix6 a) (prefix4 b) h = cc
prefix_beq→eq (prefix6 a) (prefix6 b) h = ap prefix6 (bytes_eq→eq a b h)

prefix_beq_refl : (a : NetworkPrefix) → prefix_beq a a ≡ true
unfolding prefix_beq
prefix_beq_refl (prefix4 a) = bytes_eq_refl a
prefix_beq_refl (prefix6 a) = bytes_eq_refl a

pub ip_beq_iff : (a b : IpAddr) → (ip_beq a b ≡ true) ↔ (a ≡ b)
ip_beq_iff a b = (ip_beq→eq a b, λ e. rw e (ip_beq_refl b))

pub prefix_beq_iff : (a b : NetworkPrefix) → (prefix_beq a b ≡ true) ↔ (a ≡ b)
prefix_beq_iff a b = (prefix_beq→eq a b, λ e. rw e (prefix_beq_refl b))

instance abbrev pub ip_eq : Eq IpAddr
ip_eq = record { beq = ip_beq; beq_iff = ip_beq_iff }

instance abbrev pub prefix_eq : Eq NetworkPrefix
prefix_eq = record { beq = prefix_beq; beq_iff = prefix_beq_iff }

-- A result of `to_ipv4_mapped` is kept by a second normalisation.
normalize-mapped_or :
    (a : List ℕ) (m : Option (List ℕ))
    → to_ipv4_mapped a ≡ m
    → normalize (mapped_or a m) ≡ mapped_or a m
unfolding normalize
normalize-mapped_or a (some four) h = refl
normalize-mapped_or a none h = ap (mapped_or a) h

-- Normalising twice is normalising once.
pub normalize-normalize : (a : IpAddr) → normalize (normalize a) ≡ normalize a
unfolding normalize
normalize-normalize (v4 a) = refl
normalize-normalize (v6 a) = normalize-mapped_or a (to_ipv4_mapped a) refl

-- 4 octets, or 16.
abbrev pub IsAddress : IpAddr → Type 0
IsAddress (v4 octets) = length octets ≡ 4
IsAddress (v6 octets) = length octets ≡ 16

take_whole : (n : ℕ) (xs : List ℕ) → length xs ≤ n → take n xs ≡ xs
take_whole zero [] h = refl
take_whole zero (x ∷ xs) h = absurd (omega (arith, h))
take_whole (suc n) [] h = refl
take_whole (suc n) (x ∷ xs) h = ap (◌∷◌ x) (take_whole n xs (omega (arith, h)))

mapped-shape :
    (octets four : List ℕ) (m : Option (List ℕ))
    → length octets ≡ 16
    → to_ipv4_mapped octets ≡ m
    → mapped_or octets m ≡ v4 four
    → v6 octets ≡ v6 (mapped_head ++ four)
unfolding to_ipv4_mapped
mapped-shape octets four none len e h = cc h
mapped-shape octets four (some rest) len e h =
    elim (Bool-cases (bytes_eq (take 12 octets) mapped_head)) [
      | inr no_head ↦ cc (rw no_head at e)
      | inl head ↦
          let front : take 12 octets ≡ mapped_head = bytes_eq→eq _ _ head in
          let back : take 4 (drop 12 octets) ≡ four = cc (rw head at e, h) in
          let whole : take 4 (drop 12 octets) ≡ drop 12 octets =
            take_whole 4 (drop 12 octets) (omega (arith, length-drop 12 octets, len)) in
          ap v6 (
            sym (take-append-drop 12 octets)
            ∙ ap (λ l. l ++ drop 12 octets) front
            ∙ ap (λ l. mapped_head ++ l) (sym whole ∙ back))
    ]

-- The addresses that are normalised to an IPv4 address are that address itself and its mapped form
-- in IPv6, and no other address of 4 or 16 octets.
pub normalize-eq-v4 :
    (a : IpAddr) (four : List ℕ)
    → IsAddress a
    → length four ≡ 4
    → (normalize a ≡ v4 four) ↔ ((a ≡ v4 four) ⊎ (a ≡ v6 (mapped_head ++ four)))
unfolding normalize to_ipv4_mapped
normalize-eq-v4 a four typed len = (to a typed, back)
  where
    normal : to_ipv4_mapped (mapped_head ++ four) ≡ some four
    normal = rw (bytes_eq_refl mapped_head) (ap some (take_whole 4 four (omega (arith, len))))

    back : (a ≡ v4 four) ⊎ (a ≡ v6 (mapped_head ++ four)) → normalize a ≡ v4 four
    back (inl e) = rw e refl
    back (inr e) = ap normalize e ∙ ap (mapped_or (mapped_head ++ four)) normal

    to :
        (b : IpAddr)
        → IsAddress b
        → normalize b ≡ v4 four
        → (b ≡ v4 four) ⊎ (b ≡ v6 (mapped_head ++ four))
    to (v4 octets) t h = inl h
    to (v6 octets) t h = inr (mapped-shape octets four (to_ipv4_mapped octets) t refl h)
