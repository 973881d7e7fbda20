-- ===== src/Node/Registry/Bounds.antt =====
-- src/node.rs: the capacity of `PeerRegistry`, kept by its operations.
use rpc_utreexo_bridge.Base.{
  ℕ, ◌^◌, ◌≤◌, ◌<◌, ◌≡◌, refl, Bool, true, false, Option, none, some, List, [], ◌∷◌, Bool-cases,
  inl, inr, length, arith, All, ltb, leb, ltb→lt, subst,
}
use rpc_utreexo_bridge.Base.Assoc.{
  nat_eq, contains_key, remove, insert, length-remove_contained, length-insert-le, length-remove-le,
  All-insert, All-remove, All-retain, keys-contained, retain, get, any,
}
use rpc_utreexo_bridge.Node.Address.{
  IpAddr, NetworkPrefix, normalize, normalize-normalize, from_address, ip_eq, prefix_eq,
}
use rpc_utreexo_bridge.Node.Registry.Defs.{
  PeerRecord, PeerRegistry, accepted, rejected_banned, rejected_capacity, replaced, new, is_banned,
  is_banned_at, insert_peer, accept, replace_with, evict, choose_prefix, admit_checked,
  admit_unless, admit, first_oldest, oldest_of, first_max, has_prefix, prefix_counts,
  max_banned_peers,
}
use rpc_utreexo_bridge.Node.Registry.Allocate.{allocate_peer_id-fresh}

-- The prefix that a record caches is that of its address, which is normalised.
abbrev pub IsNormal : ℕ × PeerRecord → Type 0
IsNormal x = (normalize x.1.address ≡ x.1.address) × (x.1.prefix ≡ from_address x.1.address)

abbrev pub IsValid : PeerRegistry → Type 0
IsValid r =
    (length r.peers ≤ r.max_peers)
    × (r.max_peers < 2 ^ 64)
    × (r.next_peer < 2 ^ 64)
    × (length r.banned ≤ max_banned_peers)
    × All IsNormal r.peers

abbrev pub Returns {ℓ κ} : {A : Type ℓ} → (A → Type κ) → Option A → Type (ℓ ⊔ κ)
Returns {A} P o = (a : A) × (o ≡ some a) × P a

abbrev pub IsValidAfter {ℓ} : {A : Type ℓ} → PeerRegistry × A → Type 0
IsValidAfter x = IsValid x.0

pub new-IsValid : (max_peers : ℕ) → max_peers < 2 ^ 64 → IsValid (new max_peers)
unfolding new
new-IsValid n h = (omega arith, h, omega arith, omega arith, tt)

is_banned_at-IsValid :
    (r : PeerRegistry) (address : IpAddr) (now : ℕ) (found : Option ℕ)
    → IsValid r
    → IsValid (is_banned_at r address now found).0
is_banned_at-IsValid r address now none h = h
is_banned_at-IsValid r address now (some expires) (a, b, c, d, e) =
    elim (Bool-cases (ltb now expires)) [
      | inl t ↦ rw t (a, b, c, d, e)
      | inr t ↦ rw t (a, b, c, omega (arith, length-remove-le address r.banned), e)
    ]

pub is_banned-IsValid :
    (r : PeerRegistry) (address : IpAddr) (now : ℕ)
    → IsValid r
    → IsValid (is_banned r address now).0
unfolding is_banned
is_banned-IsValid r address now h =
    is_banned_at-IsValid r (normalize address) now (get (normalize address) r.banned) h

pub insert_peer-IsValid :
    (r : PeerRegistry) (address : IpAddr) (worker now : ℕ)
    → IsValid r
    → length r.peers < r.max_peers
    → normalize address ≡ address
    → Returns IsValidAfter (insert_peer r address worker now)
unfolding insert_peer
insert_peer-IsValid r address worker now (a, b, c, d, e) room normal =
    let (peer_id, next, found, fresh, small) = allocate_peer_id-fresh r (omega arith) c in
    let peer : PeerRecord = record {
      address = address;
      connected_at = now;
      prefix = from_address address;
      software = none;
      worker = worker;
    } in
    (
      (record r { next_peer = next; peers = insert peer_id peer r.peers }, peer_id),
      rw found refl,
      (
        omega (arith, length-insert-le peer_id peer r.peers),
        b,
        small,
        d,
        All-insert IsNormal peer_id peer r.peers (normal, refl) e,
      ),
    )

accept-Returns :
    (o : Option (PeerRegistry × ℕ)) → Returns IsValidAfter o → Returns IsValidAfter (accept o)
accept-Returns o ((r, peer_id), e, h) = ((r, accepted peer_id), rw e refl, h)

replace_with-Returns :
    (x : ℕ × PeerRecord) (o : Option (PeerRegistry × ℕ))
    → Returns IsValidAfter o
    → Returns IsValidAfter (replace_with x o)
replace_with-Returns x o ((r, peer_id), e, h) = ((r, replaced x.0 x.1.worker peer_id), rw e refl, h)

oldest_of-All {κ} :
    (P : ℕ × PeerRecord → Type κ) (x : ℕ × PeerRecord) (xs : List (ℕ × PeerRecord))
    → P x
    → All P xs
    → P (oldest_of x xs)
oldest_of-All P x [] p ps = p
oldest_of-All P x (y ∷ ys) p ps = elim (Bool-cases (ltb y.1.connected_at x.1.connected_at)) [
  | inl t ↦ rw t (oldest_of-All P y ys ps.0 ps.1)
  | inr t ↦ rw t (oldest_of-All P x ys p ps.1)
]

pub first_oldest-All {κ} :
    (P : ℕ × PeerRecord → Type κ) (xs : List (ℕ × PeerRecord)) {x : ℕ × PeerRecord}
    → All P xs
    → first_oldest xs ≡ some x
    → P x
first_oldest-All P [] ps e = cc
first_oldest-All P (y ∷ ys) ps e = subst P (cc e) (oldest_of-All P y ys ps.0 ps.1)

evict-Returns :
    (r : PeerRegistry) (address : IpAddr) (worker now : ℕ) (found : Option (ℕ × PeerRecord))
    → IsValid r
    → normalize address ≡ address
    → ((x : ℕ × PeerRecord) → found ≡ some x → contains_key x.0 r.peers ≡ true)
    → Returns IsValidAfter (evict r address worker now found)
evict-Returns r address worker now none h normal mem = ((r, rejected_capacity), refl, h)
evict-Returns r address worker now (some x) (a, b, c, d, e) normal mem =
    let fewer = length-remove_contained x.0 r.peers (mem x refl) in
    replace_with-Returns x _ (
      insert_peer-IsValid (record r { peers = remove x.0 r.peers }) address worker now
        (omega arith, b, c, d, All-remove IsNormal x.0 r.peers e) (omega arith) normal)

choose_prefix-Returns :
    (r : PeerRegistry) (address : IpAddr) (worker now : ℕ) (most : Option (NetworkPrefix × ℕ))
    → IsValid r
    → normalize address ≡ address
    → Returns IsValidAfter (choose_prefix r address worker now most)
choose_prefix-Returns r address worker now none h normal = ((r, rejected_capacity), refl, h)
choose_prefix-Returns r address worker now (some (p, n)) h normal =
    let oldest = first_oldest (retain (has_prefix p) r.peers) in
    elim (Bool-cases (leb n 1)) [
      | inl t ↦ rw t ((r, rejected_capacity), refl, h)
      | inr t ↦ rw t (
          evict-Returns r address worker now oldest h normal (λ x.
            first_oldest-All (λ y. contains_key y.0 r.peers ≡ true) (retain (has_prefix p) r.peers)
              (All-retain (λ y. contains_key y.0 r.peers ≡ true) (has_prefix p) r.peers
                (keys-contained r.peers))))
    ]

module _ (order : List (NetworkPrefix × ℕ) → List (NetworkPrefix × ℕ)) where
  admit_checked-Returns :
      (r : PeerRegistry) (address : IpAddr) (worker now : ℕ)
      → IsValid r
      → normalize address ≡ address
      → Returns IsValidAfter (admit_checked order r address worker now)
  unfolding admit_checked
  admit_checked-Returns r address worker now h normal =
      elim (Bool-cases (ltb (length r.peers) r.max_peers)) [
        | inl t ↦ rw t (
            accept-Returns (insert_peer r address worker now) (
              insert_peer-IsValid r address worker now h (ltb→lt (length r.peers) r.max_peers t)
                normal))
        | inr t ↦ elim (Bool-cases (any (has_prefix (from_address address)) r.peers)) [
          | inl u ↦ rw (t, u) ((r, rejected_capacity), refl, h)
          | inr u ↦
              rw (t, u)
                (choose_prefix-Returns r address worker now
                  (first_max (order (prefix_counts r.peers))) h normal)
        ]
      ]

  admit_unless-Returns :
      (x : PeerRegistry × Bool) (address : IpAddr) (worker now : ℕ)
      → IsValid x.0
      → normalize address ≡ address
      → Returns IsValidAfter (admit_unless order x address worker now)
  admit_unless-Returns (r, true) address worker now h normal = ((r, rejected_banned), refl, h)
  admit_unless-Returns (r, false) address worker now h normal =
      admit_checked-Returns r address worker now h normal

  -- `admit` always returns on a valid registry, and leaves a valid registry behind.
  pub admit-IsValid :
      (r : PeerRegistry) (address : IpAddr) (worker now : ℕ)
      → IsValid r
      → Returns IsValidAfter (admit order r address worker now)
  unfolding admit
  admit-IsValid r address worker now h =
      admit_unless-Returns (is_banned r (normalize address) now) (normalize address) worker now
        (is_banned-IsValid r (normalize address) now h) (normalize-normalize address)
