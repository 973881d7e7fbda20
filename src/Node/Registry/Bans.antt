-- ===== src/Node/Registry/Bans.antt =====
-- src/node.rs: a ban of `PeerRegistry` under the calls that follow it.
use rpc_utreexo_bridge.Base.{
  ℕ, ◌+◌, ◌≤◌, ◌<◌, ◌≡◌, refl, sym, ap, ◌∙◌, subst, Bool, true, false, Option, none, some, List, [],
  ◌∷◌, Bool-cases, inl, inr, length, arith, ltb, leb, lt→ltb, if_false, if_true, if◌then◌else◌,
}
use rpc_utreexo_bridge.Base.Assoc.{
  nat_eq, remove, retain, any, get, insert, get-insert_self, get-insert, get-remove_other,
}
use rpc_utreexo_bridge.Node.Address.{
  IpAddr, NetworkPrefix, from_address, normalize, normalize-normalize, ip_eq,
}
use rpc_utreexo_bridge.Node.Registry.Defs.{
  PeerRecord, PeerRegistry, Admission, rejected_banned, is_banned, is_banned_at, admit,
  admit_unless, admit_checked, accept, replace_with, evict, insert_at, insert_peer,
  allocate_peer_id, choose_prefix, first_max, first_oldest, has_prefix, prefix_counts,
  max_banned_peers, ban_duration, instant_limit, identify, remove_peer, remove_worker, make_room,
  ban, ban_found, ban_expiry,
}

-- The bans in what a call returned.
abbrev banned_in : {A : Type 0} → List (IpAddr × ℕ) → Option (PeerRegistry × A) → List (IpAddr × ℕ)
banned_in banned none = banned
banned_in banned (some (r, a)) = r.banned

insert_at-banned :
    (r : PeerRegistry) (a : IpAddr) (worker now : ℕ) (found : Option (ℕ × ℕ))
    → banned_in r.banned (insert_at r a worker now found) ≡ r.banned
insert_at-banned r a worker now none = refl
insert_at-banned r a worker now (some (id, next)) = refl

insert_peer-banned :
    (r : PeerRegistry) (a : IpAddr) (worker now : ℕ)
    → banned_in r.banned (insert_peer r a worker now) ≡ r.banned
unfolding insert_peer
insert_peer-banned r a worker now = insert_at-banned r a worker now (allocate_peer_id r)

accept-banned :
    (banned : List (IpAddr × ℕ)) (q : Option (PeerRegistry × ℕ))
    → banned_in banned (accept q) ≡ banned_in banned q
accept-banned banned none = refl
accept-banned banned (some (r, id)) = refl

replace_with-banned :
    (banned : List (IpAddr × ℕ)) (x : ℕ × PeerRecord) (q : Option (PeerRegistry × ℕ))
    → banned_in banned (replace_with x q) ≡ banned_in banned q
replace_with-banned banned x none = refl
replace_with-banned banned x (some (r, id)) = refl

evict-banned :
    (r : PeerRegistry) (a : IpAddr) (worker now : ℕ) (oldest : Option (ℕ × PeerRecord))
    → banned_in r.banned (evict r a worker now oldest) ≡ r.banned
evict-banned r a worker now none = refl
evict-banned r a worker now (some x) =
    replace_with-banned r.banned x
      (insert_peer (record r { peers = remove x.0 r.peers }) a worker now)
    ∙ insert_peer-banned (record r { peers = remove x.0 r.peers }) a worker now

choose_prefix-banned :
    (r : PeerRegistry) (a : IpAddr) (worker now : ℕ) (most : Option (NetworkPrefix × ℕ))
    → banned_in r.banned (choose_prefix r a worker now most) ≡ r.banned
choose_prefix-banned r a worker now none = refl
choose_prefix-banned r a worker now (some (p, n)) = elim (Bool-cases (leb n 1)) [
  | inl t ↦ rw t refl
  | inr t ↦ rw t (evict-banned r a worker now (first_oldest (retain (has_prefix p) r.peers)))
]

-- A ban that is found keeps being found among those that have not expired.
get-retain :
    (k : IpAddr) (now expires : ℕ) (m : List (IpAddr × ℕ))
    → get k m ≡ some expires
    → ltb now expires ≡ true
    → get k (retain (λ x. ltb now x.1) m) ≡ some expires
unfolding get retain
get-retain k now expires [] h live = cc h
get-retain k now expires ((j, e) ∷ m) h live = elim (Bool-cases (ip_eq.beq j k)) [
  | inl same ↦
      let found : e ≡ expires = cc (rw same at h) in
      rw (ap (ltb now) found ∙ live, get, same) (ap some found)
  | inr other ↦
      let rest = get-retain k now expires m (rw other at h) live in
      elim (Bool-cases (ltb now e)) [
        | inl kept ↦ rw (kept, get, other) rest
        | inr gone ↦ rw gone rest
      ]
]

-- The address is banned until `expires` or later.
abbrev pub IsBannedUntil : ℕ → IpAddr → PeerRegistry → Type 0
IsBannedUntil expires b r = (e : ℕ) × (get b r.banned ≡ some e) × (expires ≤ e)

is_banned_at-keeps :
    (r : PeerRegistry) (a b : IpAddr) (now expires : ℕ) (found : Option ℕ)
    → get a r.banned ≡ found
    → IsBannedUntil expires b r
    → now < expires
    → IsBannedUntil expires b (is_banned_at r a now found).0
is_banned_at-keeps r a b now expires none at h early = h
is_banned_at-keeps r a b now expires (some end) at (e, held, late) early =
    elim (Bool-cases (ltb now end)) [
      | inl t ↦ rw t (e, held, late)
      | inr t ↦ rw t (elim (Bool-cases (ip_eq.beq a b)) [
        | inl same ↦
            let key : a ≡ b = (ip_eq.beq_iff a b).0 same in
            let equal : end ≡ e = cc (at, held, key) in
            cc (t, lt→ltb now end (omega (arith, equal, late, early)))
        | inr other ↦ (e, get-remove_other b a r.banned other ∙ held, late)
      ])
    ]

module _ (order : List (NetworkPrefix × ℕ) → List (NetworkPrefix × ℕ)) where
  admit_checked-banned :
      (r : PeerRegistry) (a : IpAddr) (worker now : ℕ)
      → banned_in r.banned (admit_checked order r a worker now) ≡ r.banned
  unfolding admit_checked
  admit_checked-banned r a worker now = elim (Bool-cases (ltb (length r.peers) r.max_peers)) [
    | inl t ↦
        rw t
          (accept-banned r.banned (insert_peer r a worker now) ∙ insert_peer-banned r a worker now)
    | inr t ↦ elim (Bool-cases (any (has_prefix (from_address a)) r.peers)) [
      | inl u ↦ rw (t, u) refl
      | inr u ↦
          rw (t, u)
            (choose_prefix-banned r a worker now (first_max (order (prefix_counts r.peers))))
    ]
  ]

  admit_unless-banned :
      (x : PeerRegistry × Bool) (a : IpAddr) (worker now : ℕ)
      → banned_in x.0.banned (admit_unless order x a worker now) ≡ x.0.banned
  admit_unless-banned (r, true) a worker now = refl
  admit_unless-banned (r, false) a worker now = admit_checked-banned r a worker now

  -- A call that comes after a ban at `since`, before it expires. The clock does not go back and is not at
  -- the end of its range, and a call that bans finds fewer than 4096 bans that are live, so that it
  -- drops none.
  pub data Later (since : ℕ) : PeerRegistry → PeerRegistry → Type 0 where
    admitting_later :
        (r s : PeerRegistry) (a : IpAddr) (worker now : ℕ) (d : Admission)
        → now < ban_expiry since
        → admit order r a worker now ≡ some (s, d)
        → Later since r s
    identifying_later :
        (r : PeerRegistry) (peer_id : ℕ) (software : List ℕ)
        → Later since r (identify r peer_id software)
    removing_later : (r : PeerRegistry) (peer_id : ℕ) → Later since r (remove_peer r peer_id)
    removing_worker_later : (r : PeerRegistry) (worker : ℕ) → Later since r (remove_worker r worker)
    banning_later :
        (r : PeerRegistry) (peer_id now : ℕ)
        → since ≤ now
        → now < ban_expiry since
        → now + ban_duration < instant_limit
        → length (retain (λ (x : IpAddr × ℕ). ltb now x.1) r.banned) < max_banned_peers
        → Later since r (ban r peer_id now).0

  pub data Afterwards (since : ℕ) (r : PeerRegistry) : PeerRegistry → Type 0 where
    at_once : Afterwards since r r
    then_later :
        {s t : PeerRegistry} → Afterwards since r s → Later since s t → Afterwards since r t

  ban_found-keeps :
      (r : PeerRegistry) (peer_id now since : ℕ) (found : Option PeerRecord) (b : IpAddr)
      → since ≤ now
      → now < ban_expiry since
      → now + ban_duration < instant_limit
      → length (retain (λ (x : IpAddr × ℕ). ltb now x.1) r.banned) < max_banned_peers
      → IsBannedUntil (ban_expiry since) b r
      → IsBannedUntil (ban_expiry since) b (ban_found r peer_id now found).0
  unfolding make_room ban_expiry
  ban_found-keeps r peer_id now since none b order_ early far few h = h
  ban_found-keeps r peer_id now since (some peer) b order_ early far few (e, held, late) =
      let live = retain (λ (x : IpAddr × ℕ). ltb now x.1) r.banned in
      let room : make_room live ≡ live =
        if_false {b = leb max_banned_peers (length live)} _ _ (ground (arith, few)) in
      let kept : get b live ≡ some e =
        get-retain b now e r.banned held (lt→ltb now e (omega (arith, early, late))) in
      let longer : ban_expiry since ≤ ban_expiry now = ground (arith, far, order_) in
      let looked : get b (insert peer.address (ban_expiry now) (make_room live))
          ≡ (if ip_eq.beq peer.address b then some (ban_expiry now) else get b live) =
        get-insert b peer.address (ban_expiry now) (make_room live)
        ∙ ap (λ l. if ip_eq.beq peer.address b then some (ban_expiry now) else get b l) room in
      elim (Bool-cases (ip_eq.beq peer.address b)) [
        | inl same ↦ (ban_expiry now, looked ∙ if_true _ _ same, longer)
        | inr other ↦ (e, looked ∙ if_false _ _ other ∙ kept, late)
      ]

  Later-keeps :
      (since : ℕ) (b : IpAddr) {r s : PeerRegistry}
      → Later since r s
      → IsBannedUntil (ban_expiry since) b r
      → IsBannedUntil (ban_expiry since) b s
  unfolding admit is_banned identify remove_peer remove_worker ban
  Later-keeps since b (admitting_later r s a worker now d early e) h =
      let checked = is_banned r (normalize a) now in
      let kept =
        is_banned_at-keeps r (normalize (normalize a)) b now (ban_expiry since) _ refl h early in
      let same : s.banned ≡ checked.0.banned =
        sym (ap (banned_in checked.0.banned) e)
        ∙ admit_unless-banned checked (normalize a) worker now in
      (kept.0, ap (get b) same ∙ kept.1, kept.2)
  Later-keeps since b (identifying_later r peer_id software) h = h
  Later-keeps since b (removing_later r peer_id) h = h
  Later-keeps since b (removing_worker_later r worker) h = h
  Later-keeps since b (banning_later r peer_id now order_ early far few) h =
      ban_found-keeps r peer_id now since (get peer_id r.peers) b order_ early far few h

  Afterwards-keeps :
      (since : ℕ) (b : IpAddr) {r s : PeerRegistry}
      → Afterwards since r s
      → IsBannedUntil (ban_expiry since) b r
      → IsBannedUntil (ban_expiry since) b s
  Afterwards-keeps since b at_once h = h
  Afterwards-keeps since b (then_later before step) h =
      Later-keeps since b step (Afterwards-keeps since b before h)

  ban_found-bans :
      (r : PeerRegistry) (peer_id now : ℕ) (found : Option PeerRecord) {banned : IpAddr}
      → (ban_found r peer_id now found).1 ≡ some banned
      → IsBannedUntil (ban_expiry now) banned (ban_found r peer_id now found).0
  ban_found-bans r peer_id now none e = cc e
  ban_found-bans r peer_id now (some peer) e =
      let room = make_room (retain (λ (x : IpAddr × ℕ). ltb now x.1) r.banned) in
      (
        ban_expiry now,
        subst (λ k. get k (insert peer.address (ban_expiry now) room) ≡ some (ban_expiry now))
            (cc e) (get-insert_self peer.address (ban_expiry now) room),
        omega arith,
      )

  -- The address that `ban` returns is refused at any time before the ban expires, in whatever form (IPv4,
  -- or mapped to IPv6) the connection shows it, and the refusal changes nothing: directly after the ban
  -- and after any calls that come before it expires, as long as none of them bans where 4096 bans are
  -- live. Such a call drops the earliest ban.
  pub ban-rejects :
      (r s : PeerRegistry) (peer_id since : ℕ) (a : IpAddr) (worker now : ℕ) {banned : IpAddr}
      → (ban r peer_id since).1 ≡ some banned
      → Afterwards since (ban r peer_id since).0 s
      → normalize a ≡ banned
      → now < ban_expiry since
      → admit order s a worker now ≡ some (s, rejected_banned)
  unfolding ban admit is_banned
  ban-rejects r s peer_id since a worker now e after n early =
      let bans = ban_found-bans r peer_id since (get peer_id r.peers) e in
      let (end, held, late) = Afterwards-keeps since _ after bans in
      let found : get (normalize (normalize a)) s.banned ≡ some end =
        ap (λ k. get k s.banned) (normalize-normalize a ∙ n) ∙ held in
      rw (found, lt→ltb now end (omega (arith, early, late))) refl
