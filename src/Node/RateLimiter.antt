-- ===== src/Node/RateLimiter.antt =====
-- src/node.rs: `MessageRateLimiter`. An `Instant` is a number of nanoseconds; `duration_since` is 0
-- for an earlier instant.
use rpc_utreexo_bridge.Base.{
  ℕ, suc, ◌+◌, ◌-◌, ◌≤◌, ◌<◌, ◌≡◌, List, [], ◌∷◌, leb, ltb, sym, subst, ◌⊎◌, inl, inr,
  if◌then◌else◌, arith, All, ◌^◌,
}

pub data RateLimitDecision : Type 0 where
  allow drop_packet ban_peer : RateLimitDecision

pub record MessageRateLimiter : Type 0 where
  pub messages : ℕ
  pub violations : ℕ
  pub window_started : ℕ

abbrev pub max_messages_per_second : ℕ
max_messages_per_second = 100

abbrev pub rate_limit_violations : ℕ
rate_limit_violations = 3

abbrev pub one_second : ℕ
one_second = 1_000_000_000

unfoldable pub new : ℕ → MessageRateLimiter
new now = record { messages = 0; violations = 0; window_started = now }

-- `saturating_add(1)` up to `top`.
abbrev pub saturating_suc : ℕ → ℕ → ℕ
saturating_suc top n = if ltb n top then n + 1 else top

-- The window reset at the head of `check`.
unfoldable pub roll_window : MessageRateLimiter → ℕ → MessageRateLimiter
roll_window l now =
    if leb one_second (now - l.window_started)
    then record { messages = 0; violations = 0; window_started = now }
    else l

-- The rest of `check`, in the current window.
unfoldable pub check_window : MessageRateLimiter → MessageRateLimiter × RateLimitDecision
check_window l =
    let messages = saturating_suc (2 ^ 32 - 1) l.messages in
    let violations = saturating_suc 255 l.violations in
    if leb messages max_messages_per_second
    then (record l { messages = messages }, allow)
    else if leb rate_limit_violations violations
    then (record l { messages = messages; violations = violations }, ban_peer)
    else (record l { messages = messages; violations = violations }, drop_packet)

unfoldable pub check : MessageRateLimiter → ℕ → MessageRateLimiter × RateLimitDecision
unfolding roll_window check_window
check l now = check_window (roll_window l now)

-- The violations are the messages over the limit, up to the width of the counter.
abbrev pub IsCounted : MessageRateLimiter → Type 0
IsCounted l =
    (l.violations ≡ (
      if leb (l.messages - max_messages_per_second) 255
      then l.messages - max_messages_per_second
      else 255))
    × (l.messages ≤ 2 ^ 32 - 1)

pub new-IsCounted : (now : ℕ) → IsCounted (new now)
unfolding new
new-IsCounted now = ground arith

pub check-IsCounted : (l : MessageRateLimiter) (now : ℕ) → IsCounted l → IsCounted (check l now).0
unfolding check
check-IsCounted l now h = ground arith

-- The decision in the window that is open at `now`: the first 100 packets pass, the next two are
-- dropped, every later one bans the peer.
abbrev pub expected : ℕ → RateLimitDecision
expected n =
    if ltb n max_messages_per_second
    then allow
    else if ltb n (max_messages_per_second + (rate_limit_violations - 1))
    then drop_packet
    else ban_peer

-- The packets before this one in the window that is open at `now`: a window that started one second
-- or more ago is over.
abbrev pub seen_before : MessageRateLimiter → ℕ → ℕ
seen_before l now = if ltb (now - l.window_started) one_second then l.messages else 0

-- Handling packets in turn; the decisions, oldest first.
unfoldable pub decisions : MessageRateLimiter → List ℕ → List RateLimitDecision
decisions l [] = []
decisions l (now ∷ later) = (check l now).1 ∷ decisions (check l now).0 later

abbrev pub allowed : List RateLimitDecision → ℕ
allowed [] = 0
allowed (allow ∷ ds) = suc (allowed ds)
allowed (drop_packet ∷ ds) = allowed ds
allowed (ban_peer ∷ ds) = allowed ds

-- One packet in an open window: it passes and is counted, or 100 have passed before it.
check_step :
    (l : MessageRateLimiter) (now : ℕ)
    → now - l.window_started < one_second
    → ((check l now).0.window_started ≡ l.window_started)
      × ((((check l now).1 ≡ allow)
            × ((check l now).0.messages ≡ suc l.messages)
            × (l.messages < max_messages_per_second))
          ⊎ ((((check l now).1 ≡ drop_packet) ⊎ ((check l now).1 ≡ ban_peer))
              × (max_messages_per_second ≤ (check l now).0.messages)))
unfolding check
check_step l now h = ground arith

-- Of the packets that arrive within one second of the start of the window, decoys included, at most
-- 100 pass in all, however they are spaced.
pub allowed_bound :
    (l : MessageRateLimiter) (times : List ℕ)
    → All (λ now. now - l.window_started < one_second) times
    → allowed (decisions l times) ≤ max_messages_per_second - l.messages
unfolding decisions
allowed_bound l [] h = omega arith
allowed_bound l (now ∷ later) h =
    let (same, cases) = check_step l now h.0 in
    let rest =
      allowed_bound (check l now).0 later
        (subst (λ (start : ℕ). All (λ now. now - start < one_second) later) (sym same) h.1) in
    elim cases [
      | inl (e, counted, room) ↦ rw (e, allowed) (omega arith)
      | inr (inl e, full) ↦ rw (e, allowed) (omega arith)
      | inr (inr e, full) ↦ rw (e, allowed) (omega arith)
    ]
