-- ===== src/Node/Registry/Prefixes.antt =====
-- src/node.rs: the map of prefix counts that `PeerRegistry::admit` builds, and `max_by_key` on it.
use rpc_utreexo_bridge.Base.{
  ℕ, suc, ◌-◌, ◌^◌, ◌≤◌, ◌<◌, ◌≡◌, Bool, false, some, List, [], ◌∷◌, Bool-cases, inl, inr, length,
  arith, if◌then◌else◌, All, ltb, subst, ap, some_inj,
}
use rpc_utreexo_bridge.Base.Assoc.{
  get, insert, remove, get-insert, get-nil, remove-All, All-remove, count, beq_refl, beq_sym_false,
}
use rpc_utreexo_bridge.Node.Address.{NetworkPrefix, prefix_eq}
use rpc_utreexo_bridge.Node.Registry.Defs.{
  PeerRecord, has_prefix, prefix_counts, get_count, add_count, max_count, first_max,
}

pub count-le {ℓ} : {A : Type ℓ} (test : A → Bool) (xs : List A) → count test xs ≤ length xs
unfolding count
count-le test [] = omega arith
count-le test (x ∷ xs) = ground (arith, count-le test xs)

add_count-eq : (n : ℕ) → n < 2 ^ 64 - 1 → add_count n ≡ suc n
add_count-eq n h = ground arith

-- The map counts the peers of every prefix.
pub get-prefix_counts :
    (peers : List (ℕ × PeerRecord)) (p : NetworkPrefix)
    → length peers < 2 ^ 64
    → get_count (get p (prefix_counts peers)) ≡ count (has_prefix p) peers
unfolding prefix_counts count
get-prefix_counts [] p small = ap get_count (get-nil p)
get-prefix_counts ((id, peer) ∷ peers) p small =
    let rest = get-prefix_counts peers p (omega arith) in
    let counts = prefix_counts peers in
    let grown = get-insert p peer.prefix (add_count (get_count (get peer.prefix counts))) counts in
    elim (Bool-cases (prefix_eq.beq peer.prefix p)) [
      | inl same ↦
          rw (grown, same, (prefix_eq.beq_iff peer.prefix p).0 same, rest)
            (omega (
              arith,
              add_count-eq (count (has_prefix p) peers)
                  (omega (arith, count-le (has_prefix p) peers)),
            ))
      | inr other ↦ rw (grown, other) (omega (arith, rest))
    ]

abbrev IsCount : List (ℕ × PeerRecord) → NetworkPrefix × ℕ → Type 0
IsCount peers x = x.1 ≡ count (has_prefix x.0) peers

-- A peer does not change the counts of the other prefixes.
other_counts :
    (x : ℕ × PeerRecord) (peers : List (ℕ × PeerRecord)) (counts : List (NetworkPrefix × ℕ))
    → All (IsCount peers) counts
    → All (λ y. prefix_eq.beq y.0 x.1.prefix ≡ false) counts
    → All (IsCount (x ∷ peers)) counts
unfolding count
other_counts x peers [] h other = tt
other_counts x peers (y ∷ ys) h other = (
  rw (beq_sym_false y.0 x.1.prefix other.0) (omega (arith, h.0)),
  other_counts x peers ys h.1 other.1,
)

pub prefix_counts-IsCount :
    (peers : List (ℕ × PeerRecord))
    → length peers < 2 ^ 64
    → All (IsCount peers) (prefix_counts peers)
unfolding prefix_counts insert count
prefix_counts-IsCount [] small = tt
prefix_counts-IsCount ((id, peer) ∷ peers) small =
    let counts = prefix_counts peers in
    let mine = get-prefix_counts peers peer.prefix (omega arith) in
    (
      (rw (beq_refl peer.prefix, mine)
          (omega (
            arith,
            add_count-eq (count (has_prefix peer.prefix) peers)
                (omega (arith, count-le (has_prefix peer.prefix) peers)),
          ))),
      other_counts (id, peer) peers (remove peer.prefix counts)
          (All-remove (IsCount peers) peer.prefix counts
            (prefix_counts-IsCount peers (omega arith)))
          (remove-All peer.prefix counts),
    )

max_count-All {κ} :
    (P : NetworkPrefix × ℕ → Type κ) (x : NetworkPrefix × ℕ) (xs : List (NetworkPrefix × ℕ))
    → P x
    → All P xs
    → P (max_count x xs)
max_count-All P x [] p ps = p
max_count-All P x (y ∷ ys) p ps = elim (Bool-cases (ltb y.1 x.1)) [
  | inl t ↦ rw t (max_count-All P x ys p ps.1)
  | inr t ↦ rw t (max_count-All P y ys ps.0 ps.1)
]

later_max :
    (x y : NetworkPrefix × ℕ)
    → (x.1 ≤ (if ltb y.1 x.1 then x else y).1) × (y.1 ≤ (if ltb y.1 x.1 then x else y).1)
later_max x y = elim (Bool-cases (ltb y.1 x.1)) [
  | inl t ↦ rw t (omega arith, ground arith)
  | inr t ↦ rw t (ground arith, omega arith)
]

max_count-ge :
    (x : NetworkPrefix × ℕ) (xs : List (NetworkPrefix × ℕ))
    → (x.1 ≤ (max_count x xs).1) × All (λ y. y.1 ≤ (max_count x xs).1) xs
max_count-ge x [] = (omega arith, tt)
max_count-ge x (y ∷ ys) =
    let best : NetworkPrefix × ℕ = if ltb y.1 x.1 then x else y in
    let both : (x.1 ≤ best.1) × (y.1 ≤ best.1) = later_max x y in
    let h = max_count-ge best ys in (omega (arith, h.0, both.0), (omega (arith, h.0, both.1), h.1))

pub first_max-All {κ} :
    (P : NetworkPrefix × ℕ → Type κ) (xs : List (NetworkPrefix × ℕ)) {x : NetworkPrefix × ℕ}
    → All P xs
    → first_max xs ≡ some x
    → P x
first_max-All P [] ps e = cc
first_max-All P (y ∷ ys) ps e = subst P (cc e) (max_count-All P y ys ps.0 ps.1)

pub first_max-ge :
    (xs : List (NetworkPrefix × ℕ)) {x : NetworkPrefix × ℕ}
    → first_max xs ≡ some x
    → All (λ y. y.1 ≤ x.1) xs
first_max-ge [] e = tt
first_max-ge (y ∷ ys) e =
    subst (λ (x : NetworkPrefix × ℕ). All (λ z. z.1 ≤ x.1) (y ∷ ys)) (some_inj e)
      (max_count-ge y ys)
