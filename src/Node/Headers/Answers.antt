-- ===== src/Node/Headers/Answers.antt =====
-- src/node.rs: the headers in an answer to getheaders stand at consecutive published heights.
use rpc_utreexo_bridge.Base.{
  ℕ, zero, suc, ◌+◌, ◌≤◌, ◌≡◌, refl, subst, Bool, true, false, Option, none, some, List, [], ◌∷◌,
  length, if◌then◌else◌, ok, arith,
}
use rpc_utreexo_bridge.Node.Headers.Defs.{
  Context, Serve, pure, ◌>>=◌, header_at_height, stops, push_header, collect_headers,
}
use rpc_utreexo_bridge.Node.Headers.Limits.{after-eq-ok, pure-eq-ok}

module _ {W E H : Type 0} (context : Context W E H) where
  -- The headers that are read from `height` on: up to the end, to the first height without a header,
  -- or to the stop hash with its header.
  pub data Reads (stop : List ℕ) (last : ℕ) : ℕ → W → List H → W → Type 0 where
    at_last : {w : W} → Reads stop last last w [] w
    missing :
        {height : ℕ} {w w' : W}
        → header_at_height context height w ≡ (w', ok none)
        → Reads stop last height w [] w'
    at_stop :
        {height : ℕ} {w w' : W} {hash : List ℕ} {header : H}
        → header_at_height context height w ≡ (w', ok (some (hash, header)))
        → stops context stop hash ≡ true
        → Reads stop last height w (header ∷ []) w'
    further :
        {height : ℕ} {w v w' : W} {hash : List ℕ} {header : H} {headers : List H}
        → header_at_height context height w ≡ (v, ok (some (hash, header)))
        → stops context stop hash ≡ false
        → Reads stop last (suc height) v headers w'
        → Reads stop last height w (header ∷ headers) w'

  module _ (stop : List ℕ) where
    abbrev pub Collected : ℕ → ℕ → W → List H → W → Type 0
    Collected n height w headers w' =
        (length headers ≤ n) × Reads stop (height + n) height w headers w'

    -- One more header, before those that are collected from the next height on.
    further-Collected :
        (n height : ℕ) (w v w' : W) (hash : List ℕ) (header : H) (headers : List H)
        → header_at_height context height w ≡ (v, ok (some (hash, header)))
        → stops context stop hash ≡ false
        → Collected n (suc height) v headers w'
        → Collected (suc n) height w (header ∷ headers) w'
    further-Collected n height w v w' hash header headers at e (len, reads) =
        let shift : suc height + n ≡ height + suc n = omega arith in
        (
          omega arith,
          further at e (subst (λ last. Reads stop last (suc height) v headers w') shift reads),
        )

    abbrev Collects : ℕ → ℕ → Type 0
    Collects n height =
        (w w' : W) (headers : List H)
        → collect_headers context stop n height w ≡ (w', ok headers)
        → Collected n height w headers w'

    push_header-Collected :
        (n height : ℕ) (w v w' : W) (found : Option (List ℕ × H)) (headers : List H)
        → Collects n (suc height)
        → header_at_height context height w ≡ (v, ok found)
        → push_header context stop found (collect_headers context stop n (suc height)) v
          ≡ (w', ok headers)
        → Collected (suc n) height w headers w'
    unfolding ◌>>=◌
    push_header-Collected n height w v w' none headers rest at h =
        let (ev, eh) = pure-eq-ok h in
        subst (λ hs. Collected (suc n) height w hs w') eh
          (
            omega arith,
            missing (subst (λ u. header_at_height context height w ≡ (u, ok none)) ev at),
          )
    push_header-Collected n height w v w' (some (hash, header)) headers rest at h =
        at_test (stops context stop hash) refl h
      where
        more : Serve W E (List H)
        more = do hs ← collect_headers context stop n (suc height); pure (header ∷ hs)

        at_test :
            (b : Bool)
            → stops context stop hash ≡ b
            → (if b then pure (header ∷ []) else more) v ≡ (w', ok headers)
            → Collected (suc n) height w headers w'
        at_test true e h' =
            let (ev, eh) = pure-eq-ok h' in
            subst (λ hs. Collected (suc n) height w hs w') eh
              (
                omega arith,
                at_stop
                    (subst (λ u. header_at_height context height w ≡ (u, ok (some (hash, header))))
                      ev at)
                    e,
              )
        at_test false e h' =
            let (hs, u, e1, e2) =
              after-eq-ok (collect_headers context stop n (suc height) v) (λ hs. pure (header ∷ hs))
                h' in
            let (ev, eh) = pure-eq-ok e2 in
            subst (λ hs'. Collected (suc n) height w hs' w') eh
              (subst (λ w''. Collected (suc n) height w (header ∷ hs) w'') ev
                (further-Collected n height w v u hash header hs at e (rest v u hs e1)))

    pub collect_headers-Collected : (n height : ℕ) → Collects n height
    unfolding collect_headers ◌>>=◌
    collect_headers-Collected zero height w w' headers h =
        let (ew, eh) = pure-eq-ok h in
        subst (λ hs. Collected zero height w hs w') eh
          (subst (λ u. Collected zero height w [] u) ew
            (omega arith, subst (λ last. Reads stop last height w [] w) zero_lem at_last))
      where
        zero_lem : height ≡ height + 0
        zero_lem = omega arith
    collect_headers-Collected (suc n) height w w' headers h =
        let (found, v, e1, e2) = after-eq-ok (header_at_height context height w) _ h in
        push_header-Collected n height w v w' found headers
          (collect_headers-Collected n (suc height)) e1 e2
