-- ===== src/Examples/Peers.antt =====
-- src/node.rs: a limiter in the middle of a window.
use rpc_utreexo_bridge.Base.{◌-◌, ◌≤◌, [], ◌∷◌, arith}
use rpc_utreexo_bridge.Node.RateLimiter.{
  MessageRateLimiter, allowed_bound, allowed, decisions, max_messages_per_second,
}

abbrev busy : MessageRateLimiter
busy = record { messages = 101; violations = 1; window_started = 5000 }

allowed_bound_example :
    allowed (decisions (record busy { messages = 98 }) (6000 ∷ 7000 ∷ 8000 ∷ []))
    ≤ max_messages_per_second - 98
allowed_bound_example =
    allowed_bound (record busy { messages = 98 }) (6000 ∷ 7000 ∷ 8000 ∷ [])
      (omega arith, (omega arith, (omega arith, tt)))
