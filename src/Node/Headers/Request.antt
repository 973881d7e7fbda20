-- ===== src/Node/Headers/Request.antt =====
-- src/node.rs: headers_for_request as a whole.
use rpc_utreexo_bridge.Base.{
  ℕ, ◌+◌, ◌-◌, ◌≤◌, ◌≡◌, ◌⊎◌, inl, inr, sym, refl, subst, Bool, true, false, Option, none, some,
  List, [], ◌∷◌, length, leb, leb→le, if◌then◌else◌, ok, err, arith,
}
use rpc_utreexo_bridge.Bytes.{bytes_eq, bytes_eq→eq}
use rpc_utreexo_bridge.Node.Wire.Messages.{GetHeadersMessage, max_locator_hashes}
use rpc_utreexo_bridge.Node.Headers.Defs.{
  u32_max, max_headers, saturating_add, Context, Serve, pure, ◌>>=◌, all_zeros,
  active_locator_height, header_at_height, end_height, stop_header, only_stop, headers_after,
  answer, headers_for_request, too_many_locator_hashes,
}
use rpc_utreexo_bridge.Node.Headers.Limits.{
  after-eq-ok, pure-eq-ok, active_locator_height-Published, end_height-IsEnd,
}
use rpc_utreexo_bridge.Node.Headers.Answers.{Collected, collect_headers-Collected}

module _ {W E H : Type 0} (context : Context W E H) (published : ℕ) where
  -- The header of the stop hash, where it is published, and no other.
  abbrev pub OnlyStop : List ℕ → W → List H → W → Type 0
  OnlyStop stop w headers w' =
      (headers ≡ [])
      ⊎ ((height : ℕ) × (v : W) × (header : H) × (height ≤ published)
          × (active_locator_height context published (stop ∷ []) w ≡ (v, ok height))
          × (header_at_height context height v ≡ (w', ok (some (stop, header))))
          × (headers ≡ header ∷ []))

  -- At most 2000 headers at the heights behind the common one, none of them above the published.
  abbrev pub Follows : List (List ℕ) → List ℕ → W → List H → W → Type 0
  Follows locator stop w headers w' =
      (common : ℕ) × (last : ℕ) × (u : W) × (v : W) × (active_locator_height context published
          locator w
        ≡ (u, ok common))
      × (common ≤ published)
      × (end_height context published (saturating_add common 1) context.header_source u
          ≡ (v, ok last))
      × (last - saturating_add common 1 ≤ max_headers)
      × (saturating_add common 1 + (last - saturating_add common 1) ≤ published + 1)
      × Collected context stop (last - saturating_add common 1) (saturating_add common 1) v headers
          w'

  abbrev pub IsAnswer : List (List ℕ) → List ℕ → W → List H → W → Type 0
  IsAnswer [] stop w headers w' = OnlyStop stop w headers w'
  IsAnswer (hash ∷ hashes) stop w headers w' = Follows (hash ∷ hashes) stop w headers w'

  only_stop-OnlyStop :
      (stop : List ℕ) (height : ℕ) (w v w' : W) (found : Option (List ℕ × H))
      → height ≤ published
      → active_locator_height context published (stop ∷ []) w ≡ (v, ok height)
      → header_at_height context height v ≡ (w', ok found)
      → OnlyStop stop w (only_stop context stop found) w'
  only_stop-OnlyStop stop height w v w' none small from at = inl refl
  only_stop-OnlyStop stop height w v w' (some (hash, header)) small from at =
      at_test (bytes_eq hash stop) refl
    where
      at_test :
          (b : Bool) → bytes_eq hash stop ≡ b → OnlyStop stop w (if b then header ∷ [] else []) w'
      at_test true e = inr (
        height,
        v,
        header,
        small,
        from,
        subst (λ h. header_at_height context height v ≡ (w', ok (some (h, header))))
            (bytes_eq→eq hash stop e) at,
        refl,
      )
      at_test false e = inl refl

  stop_header-OnlyStop :
      (stop : List ℕ) (w w' : W) (headers : List H)
      → stop_header context published stop w ≡ (w', ok headers)
      → OnlyStop stop w headers w'
  unfolding stop_header ◌>>=◌
  stop_header-OnlyStop stop w w' headers h = at_test (bytes_eq stop all_zeros) h
    where
      found_at : Serve W E (List H)
      found_at = do
        height ← active_locator_height context published (stop ∷ [])
        found ← header_at_height context height
        pure (only_stop context stop found)

      at_test :
          (b : Bool)
          → (if b then pure [] else found_at) w ≡ (w', ok headers)
          → OnlyStop stop w headers w'
      at_test true e = inl (sym ((pure-eq-ok e).1))
      at_test false e =
          let (height, v, e1, e2) =
            after-eq-ok (active_locator_height context published (stop ∷ []) w) _ e in
          let (found, v2, e3, e4) = after-eq-ok (header_at_height context height v) _ e2 in
          let (ew, eh) = pure-eq-ok e4 in
          subst (λ hs. OnlyStop stop w hs w') eh
            (only_stop-OnlyStop stop height w v w' found
              (active_locator_height-Published context published (stop ∷ []) w v height e1) e1
              (subst (λ u. header_at_height context height v ≡ (u, ok found)) ew e3))

  module _ (small : published ≤ u32_max) where
    headers_after-Follows :
        (locator : List (List ℕ)) (stop : List ℕ) (w w' : W) (headers : List H)
        → headers_after context published locator stop w ≡ (w', ok headers)
        → Follows locator stop w headers w'
    unfolding headers_after ◌>>=◌
    headers_after-Follows locator stop w w' headers h =
        let (common, u, e1, e2) =
          after-eq-ok (active_locator_height context published locator w) _ h in
        let start = saturating_add common 1 in
        let (last, v, e3, e4) =
          after-eq-ok (end_height context published start context.header_source u) _ e2 in
        let below = active_locator_height-Published context published locator w u common e1 in
        let (near, under) =
          end_height-IsEnd context published start context.header_source u v last e3 in
        (
          common,
          last,
          u,
          v,
          e1,
          below,
          e3,
          ground arith,
          ground arith,
          collect_headers-Collected context stop (last - start) start v w' headers e4,
        )

    answer-IsAnswer :
        (locator : List (List ℕ)) (stop : List ℕ) (w w' : W) (headers : List H)
        → answer context published locator stop w ≡ (w', ok headers)
        → IsAnswer locator stop w headers w'
    unfolding answer
    answer-IsAnswer [] stop w w' headers h = stop_header-OnlyStop stop w w' headers h
    answer-IsAnswer (hash ∷ hashes) stop w w' headers h =
        headers_after-Follows (hash ∷ hashes) stop w w' headers h

    -- An answer to getheaders, with a published height in a u32, is for at most 101 locators. With
    -- none it is the header of the stop hash or nothing. With some it holds the headers at
    -- consecutive heights behind the one of the locator, at most 2000 and none above the published
    -- height, up to the stop hash, to a height without a header or to the end.
    pub headers_for_request-IsAnswer :
        (request : GetHeadersMessage) (w w' : W) (headers : List H)
        → headers_for_request context published request w ≡ (w', ok headers)
        → (length request.locator_hashes ≤ max_locator_hashes)
          × IsAnswer request.locator_hashes request.stop_hash w headers w'
    unfolding headers_for_request
    headers_for_request-IsAnswer request w w' headers h =
        at_test (leb (length request.locator_hashes) max_locator_hashes) refl h
      where
        at_test :
            (b : Bool)
            → leb (length request.locator_hashes) max_locator_hashes ≡ b
            → (if b
                  then answer context published request.locator_hashes request.stop_hash
                  else (λ v. (v, err (too_many_locator_hashes (length request.locator_hashes)))))
                w
              ≡ (w', ok headers)
            → (length request.locator_hashes ≤ max_locator_hashes)
              × IsAnswer request.locator_hashes request.stop_hash w headers w'
        at_test true e h' =
            (leb→le _ _ e, answer-IsAnswer request.locator_hashes request.stop_hash w w' headers h')
        at_test false e h' = cc h'
