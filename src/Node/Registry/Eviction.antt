-- ===== src/Node/Registry/Eviction.antt =====
-- src/node.rs: the replacement branch of `PeerRegistry::admit`.
use rpc_utreexo_bridge.Base.{
  ℕ, ◌^◌, ◌≤◌, ◌<◌, ◌≡◌, refl, Bool, true, false, Option, none, some, List, [], ◌∷◌, Bool-cases,
  inl, inr, Option-cases, length, arith, if◌then◌else◌, All, All-map, ltb, leb, subst, some_inj, ap,
  ◌≢◌,
}
use mathlib.Core.List.{Mem, mem-cons_self, mem-cons_of_mem}
use rpc_utreexo_bridge.Base.Assoc.{get, All-get, count, any, retain, retain-All, All-retain, nat_eq}
use rpc_utreexo_bridge.Node.Address.{
  IpAddr, NetworkPrefix, prefix_eq, from_address, normalize, ip_eq,
}
use rpc_utreexo_bridge.Node.Registry.Defs.{
  PeerRecord, PeerRegistry, replaced, has_prefix, prefix_counts, get_count, first_max, first_oldest,
  oldest_of, admit, admit_checked, admit_unless, is_banned, is_banned_at, choose_prefix, evict,
  replace_with, accept,
}
use rpc_utreexo_bridge.Node.Registry.Prefixes.{
  get-prefix_counts, prefix_counts-IsCount, first_max-All, first_max-ge,
}
use rpc_utreexo_bridge.Node.Registry.Bounds.{first_oldest-All}

-- `order` lists the entries that it is given, each of them, and no other.
pub record IsIteration (order : List (NetworkPrefix × ℕ) → List (NetworkPrefix × ℕ)) : Type 1 where
  pub complete :
      (P : NetworkPrefix × ℕ → Type 0) (m : List (NetworkPrefix × ℕ)) → All P m → All P (order m)
  pub sound :
      (P : NetworkPrefix × ℕ → Type 0) (m : List (NetworkPrefix × ℕ)) → All P (order m) → All P m

-- The peer that an eviction removes: it is the oldest of its prefix, which at least two peers share
-- and no prefix exceeds.
abbrev pub IsOverrepresented : List (ℕ × PeerRecord) → ℕ × PeerRecord → Type 0
IsOverrepresented peers x =
    (2 ≤ count (has_prefix x.1.prefix) peers)
    × ((q : NetworkPrefix) → count (has_prefix q) peers ≤ count (has_prefix x.1.prefix) peers)
    × All (λ y. x.1.connected_at ≤ y.1.connected_at) (retain (has_prefix x.1.prefix) peers)

earlier_min :
    (x y : ℕ × PeerRecord)
    → ((if ltb y.1.connected_at x.1.connected_at then y else x).1.connected_at ≤ x.1.connected_at)
      × ((if ltb y.1.connected_at x.1.connected_at then y else x).1.connected_at ≤ y.1.connected_at)
earlier_min x y = elim (Bool-cases (ltb y.1.connected_at x.1.connected_at)) [
  | inl t ↦ rw t (ground arith, omega arith)
  | inr t ↦ rw t (omega arith, ground arith)
]

oldest_of-le :
    (x : ℕ × PeerRecord) (xs : List (ℕ × PeerRecord))
    → ((oldest_of x xs).1.connected_at ≤ x.1.connected_at)
      × All (λ y. (oldest_of x xs).1.connected_at ≤ y.1.connected_at) xs
oldest_of-le x [] = (omega arith, tt)
oldest_of-le x (y ∷ ys) =
    let best : ℕ × PeerRecord = if ltb y.1.connected_at x.1.connected_at then y else x in
    let both = earlier_min x y in
    let h = oldest_of-le best ys in (omega (arith, h.0, both.0), (omega (arith, h.0, both.1), h.1))

first_oldest-le :
    (xs : List (ℕ × PeerRecord)) {x : ℕ × PeerRecord}
    → first_oldest xs ≡ some x
    → All (λ y. x.1.connected_at ≤ y.1.connected_at) xs
first_oldest-le [] e = tt
first_oldest-le (y ∷ ys) e =
    subst (λ (x : ℕ × PeerRecord). All (λ z. x.1.connected_at ≤ z.1.connected_at) (y ∷ ys))
      (some_inj e) (oldest_of-le y ys)

-- The greatest entry of the map bounds every prefix.
most_bounds :
    (order : List (NetworkPrefix × ℕ) → List (NetworkPrefix × ℕ))
    → IsIteration order
    → (peers : List (ℕ × PeerRecord)) {x : NetworkPrefix × ℕ} → length peers < 2 ^ 64
    → first_max (order (prefix_counts peers)) ≡ some x
    → (x.1 ≡ count (has_prefix x.0) peers)
      × ((q : NetworkPrefix) → count (has_prefix q) peers ≤ x.1)
most_bounds order iter peers {x} small e =
    let m = prefix_counts peers in
    let bound = iter.sound (λ y. y.1 ≤ x.1) m (first_max-ge (order m) e) in
    (
      first_max-All (λ y. y.1 ≡ count (has_prefix y.0) peers) (order m)
          (iter.complete (λ y. y.1 ≡ count (has_prefix y.0) peers) m
            (prefix_counts-IsCount peers small))
          e,
      λ q. elim (Option-cases (get q m)) [
        | inl none_found ↦ omega (arith, get-prefix_counts peers q small, ap get_count none_found)
        | inr (n, found) ↦ omega (
          arith,
          get-prefix_counts peers q small,
          ap get_count found,
          All-get (λ y. y.1 ≤ x.1) q m bound found,
        )
      ],
    )

All-Mem {ℓ} : {A : Type ℓ} (xs : List A) → All (λ x. Mem x xs) xs
All-Mem [] = tt
All-Mem (x ∷ xs) = (mem-cons_self, All-map (λ y h. mem-cons_of_mem x h) xs (All-Mem xs))

-- What an answer `replaced` of `admit` tells about the peers that it found.
abbrev pub Evicts : List (ℕ × PeerRecord) → ℕ → ℕ → Type 0
Evicts peers peer_id worker =
    (x : ℕ × PeerRecord) × Mem x peers
    × (x.0 ≡ peer_id)
    × (x.1.worker ≡ worker)
    × IsOverrepresented peers x

-- The registry is full, no peer has the prefix of the address, and the evicted peer is
-- overrepresented.
abbrev pub IsReplacement : IpAddr → ℕ → ℕ → ℕ → List (ℕ × PeerRecord) → Type 0
IsReplacement address peer_id worker max_peers peers =
    (max_peers ≤ length peers)
    × (any (has_prefix (from_address address)) peers ≡ false)
    × Evicts peers peer_id worker

-- An answer `replaced` names the evicted peer and its worker.
replace_with-names :
    (x : ℕ × PeerRecord) (o : Option (PeerRegistry × ℕ)) {s : PeerRegistry} {peer worker id : ℕ}
    → replace_with x o ≡ some (s, replaced peer worker id)
    → (x.0 ≡ peer) × (x.1.worker ≡ worker)
replace_with-names x none e = cc
replace_with-names x (some (r, id)) e = (cc e, cc e)

-- The oldest peer of the most frequent prefix is overrepresented.
oldest-IsOverrepresented :
    (r : PeerRegistry) (y : NetworkPrefix × ℕ) {x : ℕ × PeerRecord}
    → 2 ≤ y.1
    → (y.1 ≡ count (has_prefix y.0) r.peers)
    → ((q : NetworkPrefix) → count (has_prefix q) r.peers ≤ y.1)
    → first_oldest (retain (has_prefix y.0) r.peers) ≡ some x
    → Mem x r.peers × IsOverrepresented r.peers x
oldest-IsOverrepresented r y {x} two exact bound e =
    let mine = retain (has_prefix y.0) r.peers in
    let same = (prefix_eq.beq_iff x.1.prefix y.0).0 (
      first_oldest-All (λ z. has_prefix y.0 z ≡ true) mine (retain-All (has_prefix y.0) r.peers)
        e) in
    (
      first_oldest-All (λ z. Mem z r.peers) mine
          (All-retain (λ z. Mem z r.peers) (has_prefix y.0) r.peers (All-Mem r.peers)) e,
      (
        rw same (omega arith),
        λ q. rw same (omega (arith, bound q)),
        rw same (first_oldest-le mine e),
      ),
    )

evict_lem :
    (r : PeerRegistry) (a : IpAddr) (worker now : ℕ) (found : Option (ℕ × PeerRecord))
    {s : PeerRegistry} {out out_worker id : ℕ}
    → evict r a worker now found ≡ some (s, replaced out out_worker id)
    → (x : ℕ × PeerRecord) × (found ≡ some x) × (x.0 ≡ out) × (x.1.worker ≡ out_worker)
evict_lem r a worker now none e = cc
evict_lem r a worker now (some x) e =
    let (id, names) = replace_with-names x _ e in (x, refl, id, names)

choose_prefix_lem :
    (r : PeerRegistry) (a : IpAddr) (worker now : ℕ) (most : Option (NetworkPrefix × ℕ))
    {s : PeerRegistry} {out out_worker id : ℕ}
    → ((y : NetworkPrefix × ℕ)
        → most ≡ some y
        → (y.1 ≡ count (has_prefix y.0) r.peers)
          × ((q : NetworkPrefix) → count (has_prefix q) r.peers ≤ y.1))
    → choose_prefix r a worker now most ≡ some (s, replaced out out_worker id)
    → Evicts r.peers out out_worker
choose_prefix_lem r a worker now none counts e = cc
choose_prefix_lem r a worker now (some y) counts e = elim (Bool-cases (leb y.1 1)) [
  | inl few ↦ cc (rw few at e)
  | inr many ↦
      let (x, found, id, worker_eq) = evict_lem r a worker now _ (rw many at e) in
      let (exact, bound) = counts y refl in
      let (mem, over) = oldest-IsOverrepresented r y (ground arith) exact bound found in
      (x, mem, id, worker_eq, over)
]

is_banned_at-keeps :
    (r : PeerRegistry) (a : IpAddr) (now : ℕ) (found : Option ℕ)
    → ((is_banned_at r a now found).0.peers ≡ r.peers)
      × ((is_banned_at r a now found).0.max_peers ≡ r.max_peers)
is_banned_at-keeps r a now none = (refl, refl)
is_banned_at-keeps r a now (some expires) = elim (Bool-cases (ltb now expires)) [
  | inl t ↦ rw t (refl, refl)
  | inr t ↦ rw t (refl, refl)
]

-- The ban check leaves the peers and the capacity as they are.
is_banned-keeps :
    (r : PeerRegistry) (a : IpAddr) (now : ℕ)
    → ((is_banned r a now).0.peers ≡ r.peers) × ((is_banned r a now).0.max_peers ≡ r.max_peers)
unfolding is_banned
is_banned-keeps r a now = is_banned_at-keeps r (normalize a) now (get (normalize a) r.banned)

accept-not_replaced :
    (o : Option (PeerRegistry × ℕ)) {s : PeerRegistry} {out out_worker id : ℕ}
    → accept o ≢ some (s, replaced out out_worker id)
accept-not_replaced none e = cc
accept-not_replaced (some (r, id)) e = cc

module _ (order : List (NetworkPrefix × ℕ) → List (NetworkPrefix × ℕ))
    (iter : IsIteration order) where
  admit_checked_lem :
      (r : PeerRegistry) (a : IpAddr) (worker now : ℕ) {s : PeerRegistry} {out out_worker id : ℕ}
      → length r.peers < 2 ^ 64
      → admit_checked order r a worker now ≡ some (s, replaced out out_worker id)
      → IsReplacement a out out_worker r.max_peers r.peers
  unfolding admit_checked
  admit_checked_lem r a worker now small e = elim (Bool-cases (ltb (length r.peers) r.max_peers)) [
    | inl room ↦ absurd (accept-not_replaced _ (rw room at e))
    | inr full ↦ elim (Bool-cases (any (has_prefix (from_address a)) r.peers)) [
      | inl known ↦ cc (rw (full, known) at e)
      | inr fresh ↦ (
        ground arith,
        fresh,
        choose_prefix_lem r a worker now _ (λ y. most_bounds order iter r.peers small)
            (rw (full, fresh) at e),
      )
    ]
  ]

  admit_unless_lem :
      (r : PeerRegistry) (x : PeerRegistry × Bool) (a : IpAddr) (worker now : ℕ) {s : PeerRegistry}
      {out out_worker id : ℕ}
      → x.0.peers ≡ r.peers
      → x.0.max_peers ≡ r.max_peers
      → length r.peers < 2 ^ 64
      → admit_unless order x a worker now ≡ some (s, replaced out out_worker id)
      → IsReplacement a out out_worker r.max_peers r.peers
  admit_unless_lem r (t, true) a worker now same cap small e = cc
  admit_unless_lem r (t, false) a worker now {out} {out_worker} same cap small e =
      subst (λ n. IsReplacement a out out_worker n r.peers) cap
        (subst (IsReplacement a out out_worker t.max_peers) same
          (admit_checked_lem t a worker now (rw same small) e))

  -- When `admit` answers that a peer was replaced, the registry was full, no peer had the prefix of
  -- the new address, and the evicted peer, named with its worker, is the oldest peer of its prefix;
  -- at least two peers share that prefix, and no prefix has more peers.
  pub admit_replaced :
      (r : PeerRegistry) (a : IpAddr) (worker now : ℕ) {s : PeerRegistry} {out out_worker id : ℕ}
      → length r.peers < 2 ^ 64
      → admit order r a worker now ≡ some (s, replaced out out_worker id)
      → IsReplacement (normalize a) out out_worker r.max_peers r.peers
  unfolding admit
  admit_replaced r a worker now small e =
      let (same, cap) = is_banned-keeps r (normalize a) now in
      admit_unless_lem r (is_banned r (normalize a) now) (normalize a) worker now same cap small e
