-- ===== src/Node/Headers/Served.antt =====
-- src/node.rs: headers_for_request, on stores and a node that tell the truth about the active chain.
use rpc_utreexo_bridge.Base.{
  ℕ, ◌+◌, ◌≤◌, ◌<◌, ◌≡◌, ◌⊎◌, ◌∙◌, inl, inr, ap, sym, subst, some, List, [], ◌∷◌, length, ok, arith,
}
use rpc_utreexo_bridge.Node.Wire.Messages.{GetHeadersMessage, max_locator_hashes}
use rpc_utreexo_bridge.Node.Headers.Defs.{
  u32_max, max_headers, saturating_add, Context, headers_for_request,
}
use rpc_utreexo_bridge.Node.Headers.Answers.{Reads, at_last, missing, at_stop, further}
use rpc_utreexo_bridge.Node.Headers.Request.{
  OnlyStop, Follows, IsAnswer, headers_for_request-IsAnswer,
}
use rpc_utreexo_bridge.Node.Headers.OnChain.{
  IsTruthful, IsLocated, OnChain, active_locator_height-Yields, header_at_height-Yields,
  end_height-Yields,
}

module _ {W E H : Type 0} (context : Context W E H) (P : W → Type 0) (hash_at : ℕ → List ℕ)
    (published : ℕ) where
  -- The header of the stop hash from the active chain, or nothing.
  abbrev pub StopServed : List ℕ → List H → Type 0
  StopServed stop headers =
      (headers ≡ [])
      ⊎ ((height : ℕ) × (header : H) × (height ≤ published)
          × (hash_at height ≡ stop)
          × (context.block_hash header ≡ stop)
          × (headers ≡ header ∷ []))

  -- A part of the active chain that starts behind a locator, or behind the genesis block.
  abbrev pub ChainServed : List (List ℕ) → List H → Type 0
  ChainServed locator headers =
      (common : ℕ) × IsLocated context P hash_at locator common
      × (common + length headers ≤ published)
      × (length headers ≤ max_headers)
      × OnChain context P hash_at (common + 1) headers

  abbrev pub IsServed : List (List ℕ) → List ℕ → List H → Type 0
  IsServed [] stop headers = StopServed stop headers
  IsServed (hash ∷ hashes) stop headers = ChainServed (hash ∷ hashes) headers

  module _ (truth : IsTruthful context P hash_at) where
    Reads-OnChain :
        (stop : List ℕ) (last : ℕ) {height : ℕ} {w w' : W} {headers : List H}
        → Reads context stop last height w headers w'
        → P w
        → P w' × OnChain context P hash_at height headers
    Reads-OnChain stop last at_last p = (p, tt)
    Reads-OnChain stop last (missing {height} {w} {w'} e) p =
        let (p', q) = header_at_height-Yields context P hash_at truth height w p in
        (subst (λ q. P q.0) e p', tt)
    Reads-OnChain stop last (at_stop {height} {w} {w'} {hash} {header} e s) p =
        let (p', q) = header_at_height-Yields context P hash_at truth height w p in
        let (at, same) = q (some (hash, header)) (ap (λ r. r.1) e) in
        (subst (λ q. P q.0) e p', (same ∙ at, tt))
    Reads-OnChain stop last (further {height} {w} {v} {w'} {hash} {header} {headers} e s more) p =
        let (p', q) = header_at_height-Yields context P hash_at truth height w p in
        let (at, same) = q (some (hash, header)) (ap (λ r. r.1) e) in
        let (p2, rest) = Reads-OnChain stop last more (subst (λ q. P q.0) e p') in
        (p2, (same ∙ at, rest))

    module _ (small : published < u32_max) where
      follows-Served :
          (locator : List (List ℕ)) (stop : List ℕ) (w w' : W) (headers : List H)
          → P w
          → Follows context published locator stop w headers w'
          → P w' × ChainServed locator headers
      follows-Served locator stop w w' headers p
            (common, last, u, v, e1, below, e2, few, under, (short, reads)) =
          let (pu, located) =
            active_locator_height-Yields context P hash_at truth published locator w p in
          let (pv, _) =
            end_height-Yields context P hash_at truth published (saturating_add common 1)
              context.header_source truth.node u (subst (λ q. P q.0) e1 pu) in
          let (p', chain) = Reads-OnChain stop _ reads (subst (λ q. P q.0) e2 pv) in
          let start : saturating_add common 1 ≡ common + 1 = ground (arith, below, small) in
          (
            p',
            (
              common,
              located common (ap (λ r. r.1) e1),
              omega (arith, short, under, start, below),
              omega (arith, short, few),
              subst (λ (n : ℕ). OnChain context P hash_at n headers) start chain,
            ),
          )

      stop-Served :
          (stop : List ℕ) (w w' : W) (headers : List H)
          → P w
          → OnlyStop context published stop w headers w'
          → StopServed stop headers
      stop-Served stop w w' headers p (inl e) = inl e
      stop-Served stop w w' headers p (inr (height, v, header, below, from, at, e)) =
          let (pv, _) =
            active_locator_height-Yields context P hash_at truth published (stop ∷ []) w p in
          let (p', q) =
            header_at_height-Yields context P hash_at truth height v (subst (λ q. P q.0) from pv) in
          let (there, same) = q (some (stop, header)) (ap (λ r. r.1) at) in
          inr (height, header, below, sym there, same, e)

      answer-Served :
          (locator : List (List ℕ)) (stop : List ℕ) (w w' : W) (headers : List H)
          → P w
          → IsAnswer context published locator stop w headers w'
          → IsServed locator stop headers
      answer-Served [] stop w w' headers p h = stop-Served stop w w' headers p h
      answer-Served (hash ∷ hashes) stop w w' headers p h =
          (follows-Served (hash ∷ hashes) stop w w' headers p h).1

      -- A published height below the greatest u32, and a header index, a chain view and a node that tell the
      -- truth about the active chain, except that the node may know heights of other blocks: an answer to
      -- getheaders is for at most 101 locators. With none it is the header of the stop hash from a
      -- published height of the active chain, or nothing. With some it has the headers of the active chain
      -- at consecutive heights behind that of one of the locators, or behind height 0, at most 2000 and none
      -- above the published height.
      pub headers_for_request-Served :
          (request : GetHeadersMessage) (w w' : W) (headers : List H)
          → P w
          → headers_for_request context published request w ≡ (w', ok headers)
          → (length request.locator_hashes ≤ max_locator_hashes)
            × IsServed request.locator_hashes request.stop_hash headers
      headers_for_request-Served request w w' headers p h =
          let (few, answers) =
            headers_for_request-IsAnswer context published (omega (arith, small)) request w w'
              headers h in
          (few, answer-Served request.locator_hashes request.stop_hash w w' headers p answers)
