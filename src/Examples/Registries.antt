-- ===== src/Examples/Registries.antt =====
-- src/node.rs: a registry of two peers that share a prefix, a third connection, and a ban.
use rpc_utreexo_bridge.Base.{
  ℕ, ◌^◌, ◌<◌, ◌≡◌, ◌↔◌, ◌⊎◌, ◌++◌, refl, false, some, none, List, [], ◌∷◌, arith,
}
use rpc_utreexo_bridge.Base.Assoc.{contains_key, nat_eq, insert, remove, get, retain, any}
use rpc_utreexo_bridge.Bytes.{bytes_eq}
use rpc_utreexo_bridge.Node.Address.{
  IpAddr, v4, v6, NetworkPrefix, prefix4, normalize, from_address, to_ipv4_mapped, normalize-eq-v4,
  mapped_head, ip_eq, prefix_beq,
}
use rpc_utreexo_bridge.Node.Registry.Defs.{
  PeerRegistry, PeerRecord, accepted, replaced, rejected_banned, new, admit, admit_checked,
  is_banned, insert_peer, allocate_peer_id, allocate_loop, prefix_counts, ban, ban_expiry,
  remove_peer, make_room,
}
use rpc_utreexo_bridge.Node.Registry.Allocate.{allocate_peer_id-fresh}
use rpc_utreexo_bridge.Node.Registry.Bounds.{IsValid, IsValidAfter, Returns, admit-IsValid}
use rpc_utreexo_bridge.Node.Registry.Eviction.{IsIteration, IsReplacement, admit_replaced}
use rpc_utreexo_bridge.Node.Registry.Reachable.{
  Reachable, start, next, admitting, Reachable-IsValid,
}
use rpc_utreexo_bridge.Node.Registry.Bans.{
  Afterwards, at_once, then_later, banning_later, removing_later, ban-rejects,
}

abbrev in_order : List (NetworkPrefix × ℕ) → List (NetworkPrefix × ℕ)
in_order m = m

in_order-IsIteration : IsIteration in_order
in_order-IsIteration = record { complete = λ P m h. h; sound = λ P m h. h }

abbrev peer : ℕ → ℕ → PeerRecord
peer last connected_at = record {
  address = v4 (10 ∷ 20 ∷ 0 ∷ last ∷ []);
  connected_at = connected_at;
  prefix = prefix4 (10 ∷ 20 ∷ []);
  software = none;
  worker = last;
}

abbrev one_peer : PeerRegistry
one_peer = record { banned = []; max_peers = 2; next_peer = 1; peers = (0, peer 1 50) ∷ [] }

abbrev two_peers : PeerRegistry
two_peers = record {
  banned = [];
  max_peers = 2;
  next_peer = 2;
  peers = (1, peer 2 60) ∷ (0, peer 1 50) ∷ [];
}

-- A new prefix takes the place of the oldest peer.
abbrev evicted : PeerRegistry
evicted = record {
  banned = [];
  max_peers = 2;
  next_peer = 3;
  peers =
      (
        2,
        record {
          address = v4 (30 ∷ 40 ∷ 0 ∷ 1 ∷ []);
          connected_at = 70;
          prefix = prefix4 (30 ∷ 40 ∷ []);
          software = none;
          worker = 5;
        },
      )
      ∷ (1, peer 2 60)
      ∷ [];
}

admit_first : admit in_order (new 2) (v4 (10 ∷ 20 ∷ 0 ∷ 1 ∷ [])) 1 50 ≡ some (one_peer, accepted 0)
unfolding admit admit_checked is_banned insert_peer allocate_peer_id allocate_loop new get
    contains_key insert remove normalize from_address
admit_first = refl

admit_second :
    admit in_order one_peer (v4 (10 ∷ 20 ∷ 0 ∷ 2 ∷ [])) 2 60 ≡ some (two_peers, accepted 1)
unfolding admit admit_checked is_banned insert_peer allocate_peer_id allocate_loop new get
    contains_key insert remove normalize from_address
admit_second = refl

admit_third :
    admit in_order two_peers (v4 (30 ∷ 40 ∷ 0 ∷ 1 ∷ [])) 5 70 ≡ some (evicted, replaced 0 1 2)
unfolding admit admit_checked is_banned insert_peer allocate_peer_id allocate_loop new get
    contains_key insert remove normalize from_address any retain prefix_counts prefix_beq bytes_eq
admit_third = refl

evicted-Reachable : Reachable in_order 2 evicted
evicted-Reachable =
    next two_peers evicted
      (next one_peer two_peers
        (next (new 2) one_peer start
          (admitting (new 2) one_peer (v4 (10 ∷ 20 ∷ 0 ∷ 1 ∷ [])) 1 50 (accepted 0) admit_first))
        (admitting one_peer two_peers (v4 (10 ∷ 20 ∷ 0 ∷ 2 ∷ [])) 2 60 (accepted 1) admit_second))
      (admitting two_peers evicted (v4 (30 ∷ 40 ∷ 0 ∷ 1 ∷ [])) 5 70 (replaced 0 1 2) admit_third)

Reachable-IsValid_example : IsValid evicted
Reachable-IsValid_example = Reachable-IsValid in_order 2 (omega arith) evicted-Reachable

two_peers-IsValid : IsValid two_peers
unfolding normalize from_address
two_peers-IsValid =
    (omega arith, omega arith, omega arith, omega arith, ((refl, refl), ((refl, refl), tt)))

admit-IsValid_example :
    Returns IsValidAfter (admit in_order two_peers (v4 (10 ∷ 20 ∷ 0 ∷ 3 ∷ [])) 0 80)
admit-IsValid_example =
    admit-IsValid in_order two_peers (v4 (10 ∷ 20 ∷ 0 ∷ 3 ∷ [])) 0 80 two_peers-IsValid

admit_replaced_example : IsReplacement (normalize (v4 (30 ∷ 40 ∷ 0 ∷ 1 ∷ []))) 0 1 2 two_peers.peers
admit_replaced_example =
    admit_replaced in_order in_order-IsIteration two_peers (v4 (30 ∷ 40 ∷ 0 ∷ 1 ∷ [])) 5 70
      (omega arith) admit_third

ban_second : (ban two_peers 1 100).1 ≡ some (v4 (10 ∷ 20 ∷ 0 ∷ 2 ∷ []))
unfolding ban get
ban_second = refl

ban_expiry_later : 200 < ban_expiry 100
unfolding ban_expiry
ban_expiry_later = omega arith

-- The same address, mapped to IPv6.
abbrev mapped : IpAddr
mapped = v6 (0 ∷ 0 ∷ 0 ∷ 0 ∷ 0 ∷ 0 ∷ 0 ∷ 0 ∷ 0 ∷ 0 ∷ 0xff ∷ 0xff ∷ 10 ∷ 20 ∷ 0 ∷ 2 ∷ [])

mapped-normal : normalize mapped ≡ v4 (10 ∷ 20 ∷ 0 ∷ 2 ∷ [])
unfolding normalize to_ipv4_mapped bytes_eq
mapped-normal = refl

-- The other peer is banned too, and then it is gone.
abbrev both_banned : PeerRegistry
both_banned = remove_peer (ban (ban two_peers 1 100).0 0 150).0 0

both_banned-Afterwards : Afterwards in_order 100 (ban two_peers 1 100).0 both_banned
unfolding ban_expiry ban get retain insert remove make_room
both_banned-Afterwards =
    then_later
      (then_later at_once
        (banning_later _ 0 150 (omega arith) (omega arith) (omega arith) (omega arith)))
      (removing_later _ 0)

ban-rejects_example : admit in_order both_banned mapped 0 200 ≡ some (both_banned, rejected_banned)
ban-rejects_example =
    ban-rejects in_order two_peers both_banned 1 100 mapped 0 200 ban_second both_banned-Afterwards
      mapped-normal ban_expiry_later

-- The counter has come round to an identifier in use.
abbrev wrapped : PeerRegistry
wrapped = record two_peers { next_peer = 0 }

allocate_peer_id-fresh_example :
    (peer_id next : ℕ) × (allocate_peer_id wrapped ≡ some (peer_id, next))
    × (contains_key peer_id wrapped.peers ≡ false)
    × (next < 2 ^ 64)
allocate_peer_id-fresh_example = allocate_peer_id-fresh wrapped (omega arith) (omega arith)

normalize-eq-v4_example :
    (normalize mapped ≡ v4 (10 ∷ 20 ∷ 0 ∷ 2 ∷ []))
    ↔ ((mapped ≡ v4 (10 ∷ 20 ∷ 0 ∷ 2 ∷ [])) ⊎ (mapped ≡ v6 (mapped_head ++ (10 ∷ 20 ∷ 0 ∷ 2 ∷ []))))
normalize-eq-v4_example = normalize-eq-v4 mapped (10 ∷ 20 ∷ 0 ∷ 2 ∷ []) refl refl
