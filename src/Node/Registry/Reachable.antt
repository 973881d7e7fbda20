-- ===== src/Node/Registry/Reachable.antt =====
-- src/node.rs: the states of `PeerRegistry` that its operations reach from `new`.
use rpc_utreexo_bridge.Base.{
  ℕ, suc, ◌-◌, ◌^◌, ◌≤◌, ◌<◌, ◌≡◌, refl, true, Option, none, some, List, [], ◌∷◌, Bool-cases, inl,
  inr, Option-cases, length, arith, All, ltb, subst, not, ◌==◌, ap,
}
use rpc_utreexo_bridge.Base.Assoc.{
  nat_eq, contains_key, length-remove_contained, length-insert-le, length-remove-le, All-remove,
  All-retain, keys-contained, retain, length-retain-le, get,
}
use rpc_utreexo_bridge.Node.Address.{IpAddr, NetworkPrefix, ip_eq}
use rpc_utreexo_bridge.Node.Registry.Defs.{
  PeerRecord, PeerRegistry, Admission, new, admit, max_banned_peers, identify, identify_in,
  name_once, remove_peer, remove_worker, drop_earliest, earliest_of, make_room, ban, ban_found,
  ban_expiry,
}
use rpc_utreexo_bridge.Node.Registry.Bounds.{IsNormal, IsValid, new-IsValid, admit-IsValid}

name_once-IsNormal :
    (id : ℕ) (peer : PeerRecord) (software : List ℕ)
    → IsNormal (id, peer)
    → IsNormal (id, name_once peer software)
name_once-IsNormal id peer software h = elim (Option-cases peer.software) [
  | inl e ↦ rw e h
  | inr (name, e) ↦ rw e h
]

identify_in-IsNormal :
    (peer_id : ℕ) (software : List ℕ) (peers : List (ℕ × PeerRecord))
    → All IsNormal peers
    → All IsNormal (identify_in peer_id software peers)
unfolding identify_in
identify_in-IsNormal peer_id software [] h = tt
identify_in-IsNormal peer_id software ((id, peer) ∷ peers) h =
    let rest = identify_in-IsNormal peer_id software peers h.1 in
    elim (Bool-cases (id == peer_id)) [
      | inl same ↦ rw same (name_once-IsNormal id peer software h.0, rest)
      | inr other ↦ rw other (h.0, rest)
    ]

length-identify_in :
    (peer_id : ℕ) (software : List ℕ) (peers : List (ℕ × PeerRecord))
    → length (identify_in peer_id software peers) ≡ length peers
unfolding identify_in
length-identify_in peer_id software [] = refl
length-identify_in peer_id software (x ∷ peers) = ap suc (length-identify_in peer_id software peers)

identify-IsValid :
    (r : PeerRegistry) (peer_id : ℕ) (software : List ℕ)
    → IsValid r
    → IsValid (identify r peer_id software)
unfolding identify
identify-IsValid r peer_id software (a, b, c, d, e) = (
  omega (arith, length-identify_in peer_id software r.peers),
  b,
  c,
  d,
  identify_in-IsNormal peer_id software r.peers e,
)

remove_peer-IsValid : (r : PeerRegistry) (peer_id : ℕ) → IsValid r → IsValid (remove_peer r peer_id)
unfolding remove_peer
remove_peer-IsValid r peer_id (a, b, c, d, e) = (
  omega (arith, length-remove-le peer_id r.peers),
  b,
  c,
  d,
  All-remove IsNormal peer_id r.peers e,
)

remove_worker-IsValid :
    (r : PeerRegistry) (worker : ℕ) → IsValid r → IsValid (remove_worker r worker)
unfolding remove_worker
remove_worker-IsValid r worker (a, b, c, d, e) = (
  omega (arith, length-retain-le (λ (x : ℕ × PeerRecord). not (x.1.worker == worker)) r.peers),
  b,
  c,
  d,
  All-retain IsNormal (λ x. not (x.1.worker == worker)) r.peers e,
)

earliest_of-All {κ} :
    (P : IpAddr × ℕ → Type κ) (x : IpAddr × ℕ) (xs : List (IpAddr × ℕ))
    → P x
    → All P xs
    → P (earliest_of x xs)
earliest_of-All P x [] p ps = p
earliest_of-All P x (y ∷ ys) p ps = elim (Bool-cases (ltb y.1 x.1)) [
  | inl t ↦ rw t (earliest_of-All P y ys ps.0 ps.1)
  | inr t ↦ rw t (earliest_of-All P x ys p ps.1)
]

drop_earliest-shorter :
    (banned : List (IpAddr × ℕ)) → length (drop_earliest banned) ≤ length banned - 1
unfolding drop_earliest
drop_earliest-shorter [] = omega arith
drop_earliest-shorter (x ∷ xs) =
    let all = keys-contained (x ∷ xs) in
    let found = earliest_of-All (λ y. contains_key y.0 (x ∷ xs) ≡ true) x xs all.0 all.1 in
    omega (arith, length-remove_contained (earliest_of x xs).0 (x ∷ xs) found)

-- Of at most 4096 bans, at most 4095 are left when room was made.
make_room-bound :
    (banned : List (IpAddr × ℕ))
    → length banned ≤ max_banned_peers
    → length (make_room banned) < max_banned_peers
unfolding make_room
make_room-bound banned h = ground (arith, drop_earliest-shorter banned)

ban_found-IsValid :
    (r : PeerRegistry) (peer_id now : ℕ) (found : Option PeerRecord)
    → IsValid r
    → IsValid (ban_found r peer_id now found).0
ban_found-IsValid r peer_id now none h = h
ban_found-IsValid r peer_id now (some peer) (a, b, c, d, e) =
    let live = retain (λ (x : IpAddr × ℕ). ltb now x.1) r.banned in
    let fewer = length-retain-le (λ (x : IpAddr × ℕ). ltb now x.1) r.banned in
    (
      omega (arith, length-remove-le peer_id r.peers),
      b,
      c,
      omega (
        arith,
        make_room-bound live (omega (arith, fewer)),
        length-insert-le peer.address (ban_expiry now) (make_room live),
      ),
      All-remove IsNormal peer_id r.peers e,
    )

ban-IsValid : (r : PeerRegistry) (peer_id now : ℕ) → IsValid r → IsValid (ban r peer_id now).0
unfolding ban
ban-IsValid r peer_id now h = ban_found-IsValid r peer_id now (get peer_id r.peers) h

module _ (order : List (NetworkPrefix × ℕ) → List (NetworkPrefix × ℕ)) where
  -- One call of a method by the acceptor or by a worker.
  pub data Step : PeerRegistry → PeerRegistry → Type 0 where
    admitting :
        (r s : PeerRegistry) (address : IpAddr) (worker now : ℕ) (d : Admission)
        → admit order r address worker now ≡ some (s, d)
        → Step r s
    identifying :
        (r : PeerRegistry) (peer_id : ℕ) (software : List ℕ) → Step r (identify r peer_id software)
    removing : (r : PeerRegistry) (peer_id : ℕ) → Step r (remove_peer r peer_id)
    removing_worker : (r : PeerRegistry) (worker : ℕ) → Step r (remove_worker r worker)
    banning : (r : PeerRegistry) (peer_id now : ℕ) → Step r (ban r peer_id now).0

  pub data Reachable (max_peers : ℕ) : PeerRegistry → Type 0 where
    start : Reachable max_peers (new max_peers)
    next : (r s : PeerRegistry) → Reachable max_peers r → Step r s → Reachable max_peers s

  Step-IsValid : {r s : PeerRegistry} → Step r s → IsValid r → IsValid s
  Step-IsValid (admitting r s address worker now d e) h =
      let ((s', d'), e', valid) = admit-IsValid order r address worker now h in
      subst IsValid (cc (e, e')) valid
  Step-IsValid (identifying r peer_id software) h = identify-IsValid r peer_id software h
  Step-IsValid (removing r peer_id) h = remove_peer-IsValid r peer_id h
  Step-IsValid (removing_worker r worker) h = remove_worker-IsValid r worker h
  Step-IsValid (banning r peer_id now) h = ban-IsValid r peer_id now h

  -- Whatever calls were made since `new`, there are at most `max_peers` peers and at most 4096 bans,
  -- and every peer's cached prefix is that of its address, which is normalised.
  pub Reachable-IsValid :
      (max_peers : ℕ) → max_peers < 2 ^ 64 → {r : PeerRegistry} → Reachable max_peers r → IsValid r
  Reachable-IsValid n small start = new-IsValid n small
  Reachable-IsValid n small (next r s reach step) =
      Step-IsValid step (Reachable-IsValid n small reach)
