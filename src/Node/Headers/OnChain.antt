-- ===== src/Node/Headers/OnChain.antt =====
-- src/node.rs: an answer to getheaders is a part of the node's active chain, as long as the stores
-- and the node tell the truth about it.
use rpc_utreexo_bridge.Base.{
  ℕ, suc, ◌≡◌, ◌⊎◌, ◌∙◌, inl, inr, ap, sym, refl, subst, Option, none, some, List, [], ◌∷◌, leb,
  IsIn,
}
use rpc_utreexo_bridge.Bytes.{bytes_eq, bytes_eq→eq}
use rpc_utreexo_bridge.ChainView.{
  get_block, get_block_hash, get_height, save_block_hash, save_header, save_height,
}
use rpc_utreexo_bridge.Node.Headers.Defs.{
  HeaderIndex, Blockchain, Context, Serve, known, put_header, index_height, index_header,
  save_locator, ask_source, active_locator_height, decoded, read_header, stored_header,
  fetch_header, or_fetch, or_stored, header_at_height, end_height,
}
use rpc_utreexo_bridge.Node.Headers.Yields.{
  CallYields, Yields, ViewYields, SaveKeeps, Yields-pure, Yields-bind, Yields-if, Yields-next,
  Yields-call, Yields-view, Yields-save,
}

-- `P` is what the stores and the node are like between the calls, `hash_at` the hashes of the active
-- chain.
module _ {W E H : Type 0} (context : Context W E H) (P : W → Type 0) (hash_at : ℕ → List ℕ) where
  abbrev pub IsHeight : List ℕ → ℕ → Type 0
  IsHeight hash height = hash_at height ≡ hash

  abbrev pub IsHashAt : ℕ → List ℕ → Type 0
  IsHashAt height hash = hash ≡ hash_at height

  abbrev pub HasHash : List ℕ → H → Type 0
  HasHash hash header = context.block_hash header ≡ hash

  abbrev pub IfSome : {A : Type 0} → (A → Type 0) → Option A → Type 0
  IfSome Q none = Unit {0}
  IfSome Q (some a) = Q a

  -- The header index knows blocks of the active chain only.
  pub record IsIndex (index : HeaderIndex W E H) : Type 0 where
    pub finds : (hash : List ℕ) → CallYields P (IfSome (IsHeight hash)) (index.find_height hash)
    pub gets :
        (height : ℕ)
        → CallYields P
            (IfSome (λ header. HasHash (hash_at height) header))
            (index.get_by_height height)
    pub puts :
        (height : ℕ) (header : H)
        → HasHash (hash_at height) header
        → CallYields P (λ _. Unit {0}) (index.put height header)

  -- The node gives the hashes of the active chain, and the header of a hash. The height that it gives may be
  -- that of a block outside the active chain.
  pub record IsNode (source : Blockchain W E H) : Type 0 where
    pub counts : CallYields P (λ _. Unit {0}) source.block_count
    pub hashes : (height : ℕ) → CallYields P (IsHashAt height) (source.block_hash_at height)
    pub heights : (hash : List ℕ) → CallYields P (λ _. Unit {0}) (source.block_height hash)
    pub headers : (hash : List ℕ) → CallYields P (HasHash hash) (source.block_header hash)

  -- So does the chain view, and saving what is true keeps it so.
  pub record IsView : Type 0 where
    pub view_heights :
        (hash : List ℕ) → ViewYields P (IfSome (IsHeight hash)) (get_height context.chainview hash)
    pub view_hashes :
        (height : ℕ)
        → ViewYields P (IfSome (IsHashAt height)) (get_block_hash context.chainview height)
    pub view_headers :
        (hash : List ℕ)
        → ViewYields P
            (IfSome (λ bytes.
              (header : H) → context.deserialize bytes ≡ some header → HasHash hash header))
            (get_block context.chainview hash)
    pub saves_height :
        (hash : List ℕ) (height : ℕ)
        → IsHeight hash height
        → SaveKeeps P (save_height context.chainview hash height)
    pub saves_hash :
        (height : ℕ) (hash : List ℕ)
        → IsHashAt height hash
        → SaveKeeps P (save_block_hash context.chainview height hash)
    pub saves_header :
        (hash : List ℕ) (header : H)
        → HasHash hash header
        → SaveKeeps P (save_header context.chainview hash (context.serialize header))

  pub record IsTruthful : Type 0 where
    pub index : IfSome IsIndex context.header_index
    pub node : IfSome IsNode context.header_source
    pub view : IsView

  -- The height of one of the locators, or 0.
  abbrev pub IsLocated : List (List ℕ) → ℕ → Type 0
  IsLocated locator height =
      (height ≡ 0) ⊎ ((hash : List ℕ) × IsIn hash locator × (hash_at height ≡ hash))

  -- The headers of the active chain from a height on.
  abbrev pub OnChain : ℕ → List H → Type 0
  OnChain height [] = Unit {0}
  OnChain height (header ∷ headers) =
      (context.block_hash header ≡ hash_at height) × OnChain (suc height) headers

  module _ (truth : IsTruthful) where
    put_header-Yields :
        (index : Option (HeaderIndex W E H))
        → IfSome IsIndex index
        → (height : ℕ) (header : H) → HasHash (hash_at height) header
        → Yields P (λ _. Unit {0}) (put_header context index height header)
    put_header-Yields none h height header e = Yields-pure P _ tt tt
    put_header-Yields (some index) h height header e = Yields-call P _ _ (h.puts height header e)

    index_height-Yields :
        (index : Option (HeaderIndex W E H))
        → IfSome IsIndex index
        → (hash : List ℕ) → Yields P (IfSome (IsHeight hash)) (index_height context index hash)
    index_height-Yields none h hash = Yields-pure P _ none tt
    index_height-Yields (some index) h hash = Yields-call P _ _ (h.finds hash)

    index_header-Yields :
        (index : Option (HeaderIndex W E H))
        → IfSome IsIndex index
        → (height : ℕ)
        → Yields P
            (IfSome (λ header. HasHash (hash_at height) header))
            (index_header context index height)
    index_header-Yields none h height = Yields-pure P _ none tt
    index_header-Yields (some index) h height = Yields-call P _ _ (h.gets height)

    known-Yields :
        (published : ℕ) (hash : List ℕ) (hashes : List (List ℕ)) (found : Option ℕ)
        (rest next : Serve W E ℕ)
        → IfSome (IsHeight hash) found
        → Yields P (IsLocated (hash ∷ hashes)) rest
        → Yields P (IsLocated (hash ∷ hashes)) next
        → Yields P (IsLocated (hash ∷ hashes)) (known context published found rest next)
    known-Yields published hash hashes none rest next e r n = n
    known-Yields published hash hashes (some height) rest next e r n =
        Yields-if P _ (leb height published) _ rest
          (λ _. Yields-pure P _ height (inr (hash, inl refl, e))) r

    save_locator-Yields :
        (source : Blockchain W E H)
        → IsNode source
        → (hash : List ℕ) (height : ℕ) → hash_at height ≡ hash
        → Yields P (λ n. n ≡ height) (save_locator context source hash height)
    unfolding save_locator
    save_locator-Yields source node hash height e =
        Yields-bind P _ _ _ _ (Yields-call P _ _ (node.headers hash)) (λ header same.
          Yields-bind P _ _ _ _
            (put_header-Yields context.header_index truth.index height header (same ∙ sym e))
            (λ _ _.
              Yields-bind P _ _ _ _ (Yields-save P _ (truth.view.saves_height hash height e))
                (λ _ _.
                  Yields-bind P _ _ _ _
                    (Yields-save P _ (truth.view.saves_hash height hash (sym e)))
                    (λ _ _. Yields-pure P _ height refl))))

    ask_source-Yields :
        (published : ℕ) (hash : List ℕ) (hashes : List (List ℕ)) (rest : Serve W E ℕ)
        (source : Option (Blockchain W E H))
        → IfSome IsNode source
        → Yields P (IsLocated (hash ∷ hashes)) rest
        → Yields P (IsLocated (hash ∷ hashes)) (ask_source context published hash rest source)
    unfolding ask_source
    ask_source-Yields published hash hashes rest none node r = r
    ask_source-Yields published hash hashes rest (some source) node r =
        Yields-next P _ _ _ rest _ (node.heights hash) r (λ height _.
          Yields-if P _ (leb height published) _ rest
            (λ _. Yields-next P _ _ _ rest _ (node.hashes height) r (λ active at.
              Yields-if P _ (bytes_eq active hash) _ rest
                (λ same.
                  weaken height
                    (save_locator-Yields source node hash height
                      (sym at ∙ bytes_eq→eq active hash same))
                    (sym at ∙ bytes_eq→eq active hash same))
                r))
            r)
      where
        weaken :
            (height : ℕ)
            → Yields P (λ n. n ≡ height) (save_locator context source hash height)
            → hash_at height ≡ hash
            → Yields P (IsLocated (hash ∷ hashes)) (save_locator context source hash height)
        weaken height h e w p =
            let (p', q) = h w p in (p', λ n k. inr (hash, inl refl, ap hash_at (q n k) ∙ e))

    later-IsLocated :
        (hash : List ℕ) (hashes : List (List ℕ)) (m : Serve W E ℕ)
        → Yields P (IsLocated hashes) m
        → Yields P (IsLocated (hash ∷ hashes)) m
    later-IsLocated hash hashes m h w p =
        let (p', q) = h w p in
        (
          p',
          λ n k. elim (q n k) [ inl e ↦ inl e | inr (found, there, e) ↦ inr (found, inr there, e) ],
        )

    pub active_locator_height-Yields :
        (published : ℕ) (locator : List (List ℕ))
        → Yields P (IsLocated locator) (active_locator_height context published locator)
    unfolding active_locator_height
    active_locator_height-Yields published [] = Yields-pure P _ 0 (inl refl)
    active_locator_height-Yields published (hash ∷ hashes) =
        let r = later-IsLocated hash hashes _ (active_locator_height-Yields published hashes) in
        Yields-bind P _ _ _ _ (index_height-Yields context.header_index truth.index hash)
          (λ indexed e. known-Yields published hash hashes indexed _ _ e r (
            Yields-bind P _ _ _ _ (Yields-view P _ _ (truth.view.view_heights hash)) (λ stored e'.
              known-Yields published hash hashes stored _ _ e' r
                (ask_source-Yields published hash hashes _ context.header_source truth.node r))))

    -- A header with its hash, at a height.
    abbrev pub IsAt : ℕ → List ℕ × H → Type 0
    IsAt height found = IsHashAt height found.0 × HasHash found.0 found.1

    read_header-Yields :
        (height : ℕ) (hash : List ℕ) (bytes : Option (List ℕ))
        → IsHashAt height hash
        → IfSome
            (λ b. (header : H) → context.deserialize b ≡ some header → HasHash hash header)
            bytes
        → Yields P (IfSome (IsAt height)) (read_header context hash bytes)
    read_header-Yields height hash none at e = Yields-pure P _ none tt
    read_header-Yields height hash (some bytes) at e = by_result (context.deserialize bytes) refl
      where
        by_result :
            (r : Option H)
            → context.deserialize bytes ≡ r
            → Yields P (IfSome (IsAt height)) (decoded context hash r)
        by_result none k w p = (p, λ a h. cc h)
        by_result (some header) k w p = (
          p,
          λ a h. subst (IfSome (IsAt height)) {x = some (hash, header)} (cc h) (at, e header k),
        )

    stored_header-Yields :
        (height : ℕ) (hash : Option (List ℕ))
        → IfSome (IsHashAt height) hash
        → Yields P (IfSome (IsAt height)) (stored_header context hash)
    stored_header-Yields height none e = Yields-pure P _ none tt
    stored_header-Yields height (some hash) e =
        Yields-bind P _ _ _ _ (Yields-view P _ _ (truth.view.view_headers hash))
          (λ bytes k. read_header-Yields height hash bytes e k)

    fetch_header-Yields :
        (height : ℕ) (source : Option (Blockchain W E H))
        → IfSome IsNode source
        → Yields P (IfSome (IsAt height)) (fetch_header context height source)
    unfolding fetch_header
    fetch_header-Yields height none node = Yields-pure P _ none tt
    fetch_header-Yields height (some source) node =
        Yields-bind P _ _ _ _ (Yields-call P _ _ (node.hashes height)) (λ hash at.
          Yields-bind P _ _ _ _ (Yields-call P _ _ (node.headers hash)) (λ header same.
            Yields-bind P _ _ _ _
              (put_header-Yields context.header_index truth.index height header (same ∙ at))
              (λ _ _.
                Yields-bind P _ _ _ _ (Yields-save P _ (truth.view.saves_hash height hash at))
                  (λ _ _.
                    Yields-bind P _ _ _ _
                      (Yields-save P _ (truth.view.saves_height hash height (sym at)))
                      (λ _ _.
                        Yields-bind P _ _ _ _
                          (Yields-save P _ (truth.view.saves_header hash header same))
                          (λ _ _. Yields-pure P _ (some (hash, header)) (at, same)))))))

    or_fetch-Yields :
        (height : ℕ) (found : Option (List ℕ × H))
        → IfSome (IsAt height) found
        → Yields P (IfSome (IsAt height)) (or_fetch context height found)
    or_fetch-Yields height none e = fetch_header-Yields height context.header_source truth.node
    or_fetch-Yields height (some found) e = Yields-pure P _ (some found) e

    or_stored-Yields :
        (height : ℕ) (found : Option H)
        → IfSome (λ header. HasHash (hash_at height) header) found
        → Yields P (IfSome (IsAt height)) (or_stored context height found)
    or_stored-Yields height (some header) e =
        Yields-pure P _ (some (context.block_hash header, header)) (e, refl)
    or_stored-Yields height none e =
        Yields-bind P _ _ _ _ (Yields-view P _ _ (truth.view.view_hashes height)) (λ hash at.
          Yields-bind P _ _ _ _ (stored_header-Yields height hash at)
            (λ found k. or_fetch-Yields height found k))

    pub header_at_height-Yields :
        (height : ℕ) → Yields P (IfSome (IsAt height)) (header_at_height context height)
    unfolding header_at_height
    header_at_height-Yields height =
        Yields-bind P _ _ _ _ (index_header-Yields context.header_index truth.index height)
          (λ found e. or_stored-Yields height found e)

    pub end_height-Yields :
        (published start : ℕ) (source : Option (Blockchain W E H))
        → IfSome IsNode source
        → Yields P (λ _. Unit {0}) (end_height context published start source)
    unfolding end_height
    end_height-Yields published start none node = Yields-pure P _ _ tt
    end_height-Yields published start (some source) node =
        Yields-bind P _ _ _ _ (Yields-call P _ _ node.counts) (λ count _. Yields-pure P _ _ tt)
