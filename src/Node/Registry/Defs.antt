-- ===== src/Node/Registry/Defs.antt =====
-- src/node.rs: `PeerRegistry` and its methods. Maps are association lists (see `Base.Assoc`); the
-- order in which the map of prefix counts is iterated is the parameter `order`. An `Instant` is a
-- number of nanoseconds. The mutex and its poison recovery are not modelled: a method has the lock.
use rpc_utreexo_bridge.Base.{
  ℕ, zero, suc, ◌+◌, ◌-◌, ◌*◌, ◌%◌, ◌^◌, Bool, true, false, not, Option, none, some, List, [], ◌∷◌,
  ltb, leb, ◌==◌, if◌then◌else◌, length,
}
use rpc_utreexo_bridge.Base.Assoc.{nat_eq, get, contains_key, remove, insert, retain, any}
use rpc_utreexo_bridge.Node.Address.{
  IpAddr, NetworkPrefix, normalize, from_address, ip_eq, prefix_eq,
}

pub record PeerRecord : Type 0 where
  pub address : IpAddr
  pub connected_at : ℕ
  pub prefix : NetworkPrefix
  pub software : Option (List ℕ)
  pub worker : ℕ

pub data Admission : Type 0 where
  accepted : ℕ → Admission
  -- evicted_peer, evicted_worker, peer_id
  replaced : ℕ → ℕ → ℕ → Admission
  rejected_banned rejected_capacity : Admission

pub record PeerRegistry : Type 0 where
  pub banned : List (IpAddr × ℕ)
  pub max_peers : ℕ
  pub next_peer : ℕ
  pub peers : List (ℕ × PeerRecord)

abbrev pub max_banned_peers : ℕ
max_banned_peers = 4096

abbrev pub ban_duration : ℕ
ban_duration = 60 * 60 * 1_000_000_000

-- Where `Instant::checked_add` fails: seconds in an i64.
abbrev pub instant_limit : ℕ
instant_limit = 2 ^ 63 * 1_000_000_000

unfoldable pub new : ℕ → PeerRegistry
new max_peers = record { banned = []; max_peers = max_peers; next_peer = 0; peers = [] }

-- The three branches of the lookup, on the expiry that was found.
abbrev pub is_banned_at : PeerRegistry → IpAddr → ℕ → Option ℕ → PeerRegistry × Bool
is_banned_at r address now none = (r, false)
is_banned_at r address now (some expires) =
    if ltb now expires then (r, true) else (record r { banned = remove address r.banned }, false)

unfoldable pub is_banned : PeerRegistry → IpAddr → ℕ → PeerRegistry × Bool
is_banned r address now = is_banned_at r (normalize address) now (get (normalize address) r.banned)

-- The loop with fuel: the free identifier and the counter behind it.
unfoldable pub allocate_loop : ℕ → ℕ → List (ℕ × PeerRecord) → Option (ℕ × ℕ)
allocate_loop zero next peers = none
allocate_loop (suc fuel) next peers =
    let after = (next + 1) % 2 ^ 64 in
    let rest = allocate_loop fuel after peers in
    if contains_key next peers then rest else some (next, after)

unfoldable pub allocate_peer_id : PeerRegistry → Option (ℕ × ℕ)
allocate_peer_id r = allocate_loop (suc (length r.peers)) r.next_peer r.peers

abbrev pub insert_at : PeerRegistry → IpAddr → ℕ → ℕ → Option (ℕ × ℕ) → Option (PeerRegistry × ℕ)
insert_at r address worker now none = none
insert_at r address worker now (some (peer_id, next)) = some (
  record r {
    next_peer = next;
    peers =
        insert peer_id
          (record {
            address = address;
            connected_at = now;
            prefix = from_address address;
            software = none;
            worker = worker;
          })
          r.peers;
  },
  peer_id,
)

-- `PeerRegistry::insert`; `none` stands for a loop of `allocate_peer_id` that does not end.
unfoldable pub insert_peer : PeerRegistry → IpAddr → ℕ → ℕ → Option (PeerRegistry × ℕ)
insert_peer r address worker now = insert_at r address worker now (allocate_peer_id r)

abbrev pub get_count : Option ℕ → ℕ
get_count none = 0
get_count (some n) = n

-- `count.saturating_add(1)` on a usize.
abbrev pub add_count : ℕ → ℕ
add_count n = if ltb n (2 ^ 64 - 1) then n + 1 else n

unfoldable pub prefix_counts : List (ℕ × PeerRecord) → List (NetworkPrefix × ℕ)
prefix_counts [] = []
prefix_counts ((id, peer) ∷ peers) =
    let counts = prefix_counts peers in
    insert peer.prefix (add_count (get_count (get peer.prefix counts))) counts

-- `max_by_key`: the last of the greatest.
abbrev pub max_count : NetworkPrefix × ℕ → List (NetworkPrefix × ℕ) → NetworkPrefix × ℕ
max_count best [] = best
max_count best (x ∷ xs) = max_count (if ltb x.1 best.1 then best else x) xs

-- `filter(prefix).min_by_key(connected_at)`: the first of the earliest.
abbrev pub oldest_of : ℕ × PeerRecord → List (ℕ × PeerRecord) → ℕ × PeerRecord
oldest_of best [] = best
oldest_of best (x ∷ xs) =
    oldest_of (if ltb x.1.connected_at best.1.connected_at then x else best) xs

abbrev pub first_max : List (NetworkPrefix × ℕ) → Option (NetworkPrefix × ℕ)
first_max [] = none
first_max (x ∷ xs) = some (max_count x xs)

abbrev pub first_oldest : List (ℕ × PeerRecord) → Option (ℕ × PeerRecord)
first_oldest [] = none
first_oldest (x ∷ xs) = some (oldest_of x xs)

abbrev pub has_prefix : NetworkPrefix → ℕ × PeerRecord → Bool
has_prefix p x = prefix_eq.beq x.1.prefix p

abbrev pub accept : Option (PeerRegistry × ℕ) → Option (PeerRegistry × Admission)
accept none = none
accept (some (r, peer_id)) = some (r, accepted peer_id)

abbrev pub replace_with :
    ℕ × PeerRecord → Option (PeerRegistry × ℕ) → Option (PeerRegistry × Admission)
replace_with evicted none = none
replace_with evicted (some (r, peer_id)) = some (r, replaced evicted.0 evicted.1.worker peer_id)

-- The end of `admit`, on the oldest peer of the prefix.
abbrev pub evict :
    PeerRegistry → IpAddr → ℕ → ℕ → Option (ℕ × PeerRecord) → Option (PeerRegistry × Admission)
evict r address worker now none = some (r, rejected_capacity)
evict r address worker now (some evicted) =
    replace_with evicted
      (insert_peer (record r { peers = remove evicted.0 r.peers }) address worker now)

abbrev pub choose_prefix :
    PeerRegistry → IpAddr → ℕ → ℕ → Option (NetworkPrefix × ℕ) → Option (PeerRegistry × Admission)
choose_prefix r address worker now none = some (r, rejected_capacity)
choose_prefix r address worker now (some (evicted_prefix, count)) =
    if leb count 1
    then some (r, rejected_capacity)
    else evict r address worker now (first_oldest (retain (has_prefix evicted_prefix) r.peers))

module _ (order : List (NetworkPrefix × ℕ) → List (NetworkPrefix × ℕ)) where
  -- `admit` behind the ban check, on the normalised address.
  unfoldable pub admit_checked : PeerRegistry → IpAddr → ℕ → ℕ → Option (PeerRegistry × Admission)
  admit_checked r address worker now =
      if ltb (length r.peers) r.max_peers
      then accept (insert_peer r address worker now)
      else if any (has_prefix (from_address address)) r.peers
      then some (r, rejected_capacity)
      else choose_prefix r address worker now (first_max (order (prefix_counts r.peers)))

  abbrev pub admit_unless : PeerRegistry × Bool → IpAddr → ℕ → ℕ → Option (PeerRegistry × Admission)
  admit_unless (r, true) address worker now = some (r, rejected_banned)
  admit_unless (r, false) address worker now = admit_checked r address worker now

  unfoldable pub admit : PeerRegistry → IpAddr → ℕ → ℕ → Option (PeerRegistry × Admission)
  admit r address worker now =
      admit_unless (is_banned r (normalize address) now) (normalize address) worker now

-- `get_or_insert`: the first announcement is kept.
abbrev pub name_once : PeerRecord → List ℕ → PeerRecord
name_once peer software = elim peer.software [
  | none ↦ record peer { software = some software }
  | some _ ↦ peer
]

unfoldable pub identify_in : ℕ → List ℕ → List (ℕ × PeerRecord) → List (ℕ × PeerRecord)
identify_in peer_id software [] = []
identify_in peer_id software ((id, peer) ∷ peers) =
    (id, if id == peer_id then name_once peer software else peer)
    ∷ identify_in peer_id software peers

unfoldable pub identify : PeerRegistry → ℕ → List ℕ → PeerRegistry
identify r peer_id software = record r { peers = identify_in peer_id software r.peers }

unfoldable pub remove_peer : PeerRegistry → ℕ → PeerRegistry
remove_peer r peer_id = record r { peers = remove peer_id r.peers }

unfoldable pub remove_worker : PeerRegistry → ℕ → PeerRegistry
remove_worker r worker = record r { peers = retain (λ x. not (x.1.worker == worker)) r.peers }

-- `min_by_key(expires)` over the bans.
abbrev pub earliest_of : IpAddr × ℕ → List (IpAddr × ℕ) → IpAddr × ℕ
earliest_of best [] = best
earliest_of best (x ∷ xs) = earliest_of (if ltb x.1 best.1 then x else best) xs

unfoldable pub drop_earliest : List (IpAddr × ℕ) → List (IpAddr × ℕ)
drop_earliest [] = []
drop_earliest (x ∷ xs) = remove (earliest_of x xs).0 (x ∷ xs)

-- `if self.banned.len() >= MAX_BANNED_PEERS { .. }`
unfoldable pub make_room : List (IpAddr × ℕ) → List (IpAddr × ℕ)
make_room banned = if leb max_banned_peers (length banned) then drop_earliest banned else banned

-- `now.checked_add(BAN_DURATION).unwrap_or(now)`
unfoldable pub ban_expiry : ℕ → ℕ
ban_expiry now = if ltb (now + ban_duration) instant_limit then now + ban_duration else now

abbrev pub ban_found : PeerRegistry → ℕ → ℕ → Option PeerRecord → PeerRegistry × Option IpAddr
ban_found r peer_id now none = (r, none)
ban_found r peer_id now (some peer) = (
  record r {
    banned = insert peer.address (ban_expiry now) (make_room (retain (λ x. ltb now x.1) r.banned));
    peers = remove peer_id r.peers;
  },
  some peer.address,
)

unfoldable pub ban : PeerRegistry → ℕ → ℕ → PeerRegistry × Option IpAddr
ban r peer_id now = ban_found r peer_id now (get peer_id r.peers)
