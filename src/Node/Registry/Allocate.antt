-- ===== src/Node/Registry/Allocate.antt =====
-- src/node.rs: `PeerRegistry::allocate_peer_id`, whose loop ends at a free identifier.
use rpc_utreexo_bridge.Base.{
  ℕ, zero, suc, ◌+◌, ◌%◌, ◌^◌, ◌≤◌, ◌<◌, ◌≡◌, ◌≢◌, false, none, some, List, Bool-cases, inl, inr,
  subst, some_inj, Option-cases, length, arith, neq→==_false,
}
use rpc_utreexo_bridge.Base.Assoc.{
  nat_eq, contains_key, remove, length-remove_contained, contains_key-remove_other,
}
use rpc_utreexo_bridge.Node.Registry.Defs.{
  PeerRecord, PeerRegistry, allocate_loop, allocate_peer_id,
}

-- A loop that finds no free identifier still finds none without an entry it does not visit.
loop-remove :
    (fuel m n : ℕ) (peers : List (ℕ × PeerRecord))
    → ((i : ℕ) → i < fuel → (m + i) % 2 ^ 64 ≢ n)
    → m < 2 ^ 64
    → allocate_loop fuel m peers ≡ none
    → allocate_loop fuel m (remove n peers) ≡ none
unfolding allocate_loop
loop-remove zero m n peers apart h e = e
loop-remove (suc fuel) m n peers apart h e =
    let kept =
      contains_key-remove_other m n peers
        (neq→==_false n m (λ q. apart 0 (omega arith) (omega arith))) in
    elim (Bool-cases (contains_key m peers)) [
      | inl taken ↦
          rw (kept, taken)
            (loop-remove fuel ((m + 1) % 2 ^ 64) n peers
              (λ i less q. apart (suc i) (omega arith) (omega arith)) (omega arith) (rw taken at e))
      | inr free ↦ cc (rw free at e)
    ]

-- A loop without a free identifier has met as many peers as it has turns.
loop-none :
    (fuel m : ℕ) (peers : List (ℕ × PeerRecord))
    → fuel ≤ 2 ^ 64
    → m < 2 ^ 64
    → allocate_loop fuel m peers ≡ none
    → fuel ≤ length peers
unfolding allocate_loop
loop-none zero m peers small h e = omega arith
loop-none (suc fuel) m peers small h e = elim (Bool-cases (contains_key m peers)) [
  | inl taken ↦
      let next = (m + 1) % 2 ^ 64 in
      let rest =
        loop-none fuel next (remove m peers) (omega arith) (omega arith)
          (loop-remove fuel next m peers (λ i less q. omega arith) (omega arith) (rw taken at e)) in
      omega (arith, length-remove_contained m peers taken)
  | inr free ↦ cc (rw free at e)
]

loop-free :
    (fuel m : ℕ) (peers : List (ℕ × PeerRecord)) {found : ℕ × ℕ}
    → m < 2 ^ 64
    → allocate_loop fuel m peers ≡ some found
    → (contains_key found.0 peers ≡ false) × (found.1 < 2 ^ 64)
unfolding allocate_loop
loop-free zero m peers h e = cc
loop-free (suc fuel) m peers h e = elim (Bool-cases (contains_key m peers)) [
  | inl taken ↦ loop-free fuel ((m + 1) % 2 ^ 64) peers (omega arith) (rw taken at e)
  | inr free ↦
      subst (λ (f : ℕ × ℕ). (contains_key f.0 peers ≡ false) × (f.1 < 2 ^ 64))
        (some_inj (rw free at e)) (free, omega arith)
]

-- A registry of fewer than 2^64 peers always has a free identifier within one turn more than it has
-- peers: the loop of `allocate_peer_id` ends, and the identifier it returns belongs to no peer.
pub allocate_peer_id-fresh :
    (r : PeerRegistry)
    → length r.peers < 2 ^ 64
    → r.next_peer < 2 ^ 64
    → (peer_id next : ℕ) × (allocate_peer_id r ≡ some (peer_id, next))
      × (contains_key peer_id r.peers ≡ false)
      × (next < 2 ^ 64)
unfolding allocate_peer_id
allocate_peer_id-fresh r small h = elim (Option-cases (allocate_peer_id r)) [
  | inl e ↦ absurd (omega (arith, loop-none (suc (length r.peers)) r.next_peer r.peers small h e))
  | inr (found, e) ↦ (
    found.0,
    found.1,
    e,
    (loop-free (suc (length r.peers)) r.next_peer r.peers h e).0,
    (loop-free (suc (length r.peers)) r.next_peer r.peers h e).1,
  )
]
