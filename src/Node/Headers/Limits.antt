-- ===== src/Node/Headers/Limits.antt =====
-- src/node.rs: what an answer to getheaders may hold.
use rpc_utreexo_bridge.Base.{
  ℕ, ◌≤◌, ◌≡◌, refl, subst, Bool, true, false, Option, none, some, List, [], ◌∷◌, leb,
  if◌then◌else◌, Result, ok, err, arith,
}
use rpc_utreexo_bridge.Bytes.{bytes_eq}
use rpc_utreexo_bridge.Node.Headers.Defs.{
  max_headers, saturating_add, HeadersError, Blockchain, Context, Serve, pure, after, ◌>>=◌,
  ok_or_next, next_unless_ok, known, save_locator, ask_source, active_locator_height, end_height,
}

module _ {W E : Type 0} where
  pub after-eq-ok :
      {A B : Type 0} (q : W × Result (HeadersError E) A) (f : A → Serve W E B) {w' : W} {b : B}
      → after q f ≡ (w', ok b)
      → (a : A) × (w : W) × (q ≡ (w, ok a)) × (f a w ≡ (w', ok b))
  after-eq-ok (w, ok a) f h = (a, w, refl, h)
  after-eq-ok (w, err e) f h = cc h

  pub pure-eq-ok :
      {A : Type 0} {a b : A} {w w' : W}
      → Path (W × Result (HeadersError E) A) (pure a w) (w', ok b)
      → (w ≡ w') × (a ≡ b)
  unfolding pure
  pure-eq-ok h = (cc h, cc h)

  -- Every value that a run returns has the property.
  abbrev pub Ends : {A : Type 0} → (A → Type 0) → Serve W E A → Type 0
  Ends {A} P m = (w w' : W) (a : A) → m w ≡ (w', ok a) → P a

  module _ {A : Type 0} (P : A → Type 0) where
    pub Ends-pure : (a : A) → P a → Ends P (pure a)
    unfolding pure
    Ends-pure a p w w' a' h = subst P (cc h) p

    pub Ends-bind :
        {C : Type 0} (m : Serve W E C) (f : C → Serve W E A)
        → ((c : C) → Ends P (f c))
        → Ends P (◌>>=◌ m f)
    unfolding ◌>>=◌
    Ends-bind m f each w w' a h = let (c, v, _, e) = after-eq-ok (m w) f h in each c v w' a e

    pub Ends-if :
        (b : Bool) (m n : Serve W E A)
        → (b ≡ true → Ends P m)
        → Ends P n
        → Ends P (if b then m else n)
    Ends-if true m n first second = first refl
    Ends-if false m n first second = second

    Ends-next :
        {C : Type 0} (m : W → W × Result E C) (n : Serve W E A) (f : C → Serve W E A)
        → Ends P n
        → ((c : C) → Ends P (f c))
        → Ends P (ok_or_next m n f)
    unfolding ok_or_next
    Ends-next {C} m n f other each w w' a h = by_result (m w) h
      where
        by_result : (q : W × Result E C) → next_unless_ok q n f ≡ (w', ok a) → P a
        by_result (v, ok c) e = each c v w' a e
        by_result (v, err e') e = other v w' a e

module _ {W E H : Type 0} (context : Context W E H) where
  abbrev pub Published : ℕ → ℕ → Type 0
  Published published height = height ≤ published

  known-Published :
      (published : ℕ) (found : Option ℕ) (rest next : Serve W E ℕ)
      → Ends (Published published) rest
      → Ends (Published published) next
      → Ends (Published published) (known context published found rest next)
  known-Published published none rest next r n = n
  known-Published published (some height) rest next r n =
      Ends-if _ (leb height published) _ rest (λ e. Ends-pure _ height (ground arith)) r

  save_locator-Published :
      (published height : ℕ) (source : Blockchain W E H) (hash : List ℕ)
      → height ≤ published
      → Ends (Published published) (save_locator context source hash height)
  unfolding save_locator
  save_locator-Published published height source hash small = Ends-bind _ _ _ (λ header.
      Ends-bind _ _ _ (λ _. Ends-bind _ _ _ (λ _. Ends-bind _ _ _ (λ _. Ends-pure _ height small))))

  ask_source-Published :
      (published : ℕ) (hash : List ℕ) (rest : Serve W E ℕ) (source : Option (Blockchain W E H))
      → Ends (Published published) rest
      → Ends (Published published) (ask_source context published hash rest source)
  unfolding ask_source
  ask_source-Published published hash rest none r = r
  ask_source-Published published hash rest (some source) r = Ends-next _ _ rest _ r (λ height.
      Ends-if _ (leb height published) _ rest
        (λ e. Ends-next _ _ rest _ r (λ active.
          Ends-if _ (bytes_eq active hash) _ rest
            (λ _. save_locator-Published published height source hash (ground arith)) r))
        r)

  -- No locator leads above the published height.
  pub active_locator_height-Published :
      (published : ℕ) (locator : List (List ℕ))
      → Ends (Published published) (active_locator_height context published locator)
  unfolding active_locator_height
  active_locator_height-Published published [] = Ends-pure _ 0 (omega arith)
  active_locator_height-Published published (hash ∷ hashes) =
      let r = active_locator_height-Published published hashes in
      Ends-bind _ _ _ (λ indexed. known-Published published indexed _ _ r (
        Ends-bind _ _ _ (λ stored.
          known-Published published stored _ _ r
            (ask_source-Published published hash _ context.header_source r))))

  -- What bounds the end of the heights that are read.
  abbrev pub IsEnd : ℕ → ℕ → ℕ → Type 0
  IsEnd published start last =
      (last ≤ saturating_add start max_headers) × (last ≤ saturating_add published 1)

  pub end_height-IsEnd :
      (published start : ℕ) (source : Option (Blockchain W E H))
      → Ends (IsEnd published start) (end_height context published start source)
  unfolding end_height
  end_height-IsEnd published start none = Ends-pure _ _ (ground arith)
  end_height-IsEnd published start (some source) =
      Ends-bind _ _ _ (λ count. Ends-pure _ _ (ground arith))
